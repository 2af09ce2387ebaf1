-- ===== src/Tests/Requests.antt =====
-- Instances for the copies of batches, the rate limiter, the test handler and the webhook receiver.
use energy_plant_monitoring.Base.{false, ℕ, ◌-◌, ltb, List, [], ◌∷◌}
use energy_plant_monitoring.Errors.{nil, new}
use energy_plant_monitoring.Entities.{EventOperational, EventAnalytical}
use energy_plant_monitoring.Writer.Save.{Tables}
use energy_plant_monitoring.Writer.Save.Copy.{Answers}
use energy_plant_monitoring.Rest.RateLimit.{Rate}

abbrev operational_at : ℕ → EventOperational
operational_at at = record {
  id = 3;
  event_type = "power_reading";
  plant_source_id = 5;
  source = "kafka-intake";
  payload = [];
  metadata = [];
  created_at = at;
}

abbrev analytical_at : ℕ → EventAnalytical
analytical_at at = record {
  created_at = at;
  id = 3;
  event_type = "power_reading";
  plant_source_id = 5;
  source = "kafka-intake";
  payload = [];
  metadata = [];
}

abbrev all_fine : Answers
all_fine = record {
  has_temp = false;
  acquired = nil;
  begun = nil;
  created = nil;
  copied = nil;
  inserted = nil;
  committed = nil;
  fallback = nil;
}

abbrev insert_fails : Answers
insert_fails = record all_fine { inserted = new "disk full" }

abbrev batch : List EventOperational
batch = operational_at 10 ∷ operational_at 20 ∷ []

abbrev no_rows : Tables
no_rows = record { operational = []; analytical = [] }

-- two tokens that do not come back
abbrev rate : Rate ℕ
rate = record { new_limiter = 2; allow = λ now tokens. (ltb 0 tokens, tokens - 1) }
