-- ===== src/Pagination/Cursor.antt =====
-- Limits and cursors of pagination.go.
use energy_plant_monitoring.Base.{
  ℕ, zero, suc, ◌≤◌, Bool, true, false, ◌≡◌, refl, some, [], ◌∷◌, ◌++◌, arith, ◌==◌, if◌then◌else◌,
}
use energy_plant_monitoring.Entities.{Uuid, Time}
use energy_plant_monitoring.Pagination.{
  Text, ℤ, pos, negsuc, PageQuery, max_page_size, normal_limit, normalize_page_query, Codec, bar,
  split_bar, encode_cursor, decode_cursor,
}

-- A normalized limit is between 1 and `max_page_size`, whatever was asked for, and normalizing
-- again changes nothing.
normalize_page_query_bounds :
    (q : PageQuery)
    → ((n : ℕ) × ((normalize_page_query q).limit ≡ pos n) × (1 ≤ n) × (n ≤ max_page_size))
      × (normalize_page_query (normalize_page_query q) ≡ normalize_page_query q)
unfolding normalize_page_query
normalize_page_query_bounds q =
    ((normal_limit q.limit, refl, (bounds q.limit).0, (bounds q.limit).1), again q.limit)
  where
    bounds : (limit : ℤ) → (1 ≤ normal_limit limit) × (normal_limit limit ≤ max_page_size)
    bounds (pos zero) = omega arith
    bounds (pos (suc n)) = ground arith
    bounds (negsuc n) = omega arith

    again :
        (limit : ℤ)
        → ◌≡◌ {A = PageQuery}
            (record q { limit = pos (normal_limit (pos (normal_limit limit))) })
            (record q { limit = pos (normal_limit limit) })
    again (pos zero) = refl
    again (pos (suc n)) = ground arith
    again (negsuc n) = refl

abbrev has_bar : Text → Bool
has_bar [] = false
has_bar (c ∷ s) = let rest = has_bar s in if c == bar then true else rest

split_bar-append : (a b : Text) → has_bar a ≡ false → split_bar (a ++ (bar ∷ b)) ≡ some (a, b)
unfolding split_bar
split_bar-append [] b h = refl
split_bar-append (c ∷ a) b h = ground (arith, split_bar-append a b)

-- What base64 and the UUID package do, and the time layout at one time: its digits and letters
-- hold no bar, and a time in the range of the layout is read back.
pub record RoundTrips (codec : Codec) (t : Time) : Type 0 where
  pub decodes : (s : Text) → codec.base64_decode (codec.base64_encode s) ≡ some s
  pub plain : has_bar (codec.format_time t) ≡ false
  pub parses : codec.parse_time (codec.format_time t) ≡ some t
  pub identifies : (id : Uuid) → codec.parse_uuid (codec.uuid_string id) ≡ some id

-- A cursor that was encoded is decoded to the same time and id, if base64, the time layout at that
-- time and the UUID format can be read back.
pub decode_cursor-encode_cursor :
    (codec : Codec) (t : Time) (id : Uuid)
    → RoundTrips codec t
    → decode_cursor codec (encode_cursor codec t id) ≡ some (record { created_at = t; id = id })
unfolding decode_cursor encode_cursor
decode_cursor-encode_cursor codec t id laws =
    rw (laws.decodes _, split_bar-append _ _ laws.plain, laws.parses, laws.identifies) refl
