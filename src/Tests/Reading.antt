-- ===== src/Tests/Reading.antt =====
-- Instances for the pages of events (pagination.go), the rows and the caches of the repositories.
use energy_plant_monitoring.Base.{ℕ, ◌+◌, ◌-◌, ◌≡◌, refl, List, [], ◌∷◌, Option, none, some, arith}
use energy_plant_monitoring.Entities.{EventOperational}
use energy_plant_monitoring.Pagination.{Text, Codec, encode_cursor, decode_cursor}
use energy_plant_monitoring.Pagination.Cursor.{RoundTrips, decode_cursor-encode_cursor}

-- a time is one sign that is no bar, an id one sign
abbrev read_one : Text → Option ℕ
read_one [] = none
read_one (c ∷ s) = some c

abbrev read_time : Text → Option ℕ
read_time [] = none
read_time (c ∷ s) = some (c - 125)

abbrev codec : Codec
codec = record {
  base64_encode = λ s. s;
  base64_decode = λ s. some s;
  format_time = λ t. (t + 125) ∷ [];
  parse_time = read_time;
  uuid_string = λ id. id ∷ [];
  parse_uuid = read_one;
}

codec-RoundTrips : (t : ℕ) → RoundTrips codec t
codec-RoundTrips t = record {
  decodes = λ s. refl;
  plain = ground arith;
  parses = ground arith;
  identifies = λ id. refl;
}

abbrev event : ℕ → ℕ → EventOperational
event at id = record {
  id = id;
  event_type = "power_reading";
  plant_source_id = 5;
  source = "kafka-intake";
  payload = [];
  metadata = [];
  created_at = at;
}

abbrev rows : List EventOperational
rows = event 30 1 ∷ event 20 9 ∷ event 20 4 ∷ []

decode_cursor-encode_cursor_example :
    decode_cursor codec (encode_cursor codec 20 9) ≡ some (record { created_at = 20; id = 9 })
decode_cursor-encode_cursor_example = decode_cursor-encode_cursor codec 20 9 (codec-RoundTrips 20)
