-- ===== src/Server/Settings/Masking.antt =====
-- What OnSetConfig (internal/infrastructure/conf/config.go) shows of a secret.
use mathlib.Core.List.{append_assoc}
use energy_plant_monitoring.Base.{
  ◌≤◌, ◌<◌, ◌↔◌, String, true, ◌≡◌, none, some, [], ◌∷◌, ◌++◌, length, arith, take-append,
  drop-append, length-append,
}
use energy_plant_monitoring.Server.Settings.{Runes, byte_len, stars, is_secret, on_set_config}

length_at_most_bytes : (s : Runes) → length s ≤ byte_len s
length_at_most_bytes [] = omega arith
length_at_most_bytes (r ∷ s) = ground (arith, length_at_most_bytes s)

-- A secret of five runes or more is logged as its first two runes, a star for each further one, and
-- its last two runes.
on_set_config_masks :
    (tag : String) (front middle back : Runes)
    → is_secret tag ≡ true
    → length front ≡ 2
    → length back ≡ 2
    → 1 ≤ length middle
    → on_set_config tag (front ++ (middle ++ back))
      ≡ some (front ++ (stars (length middle) ++ back))
unfolding on_set_config
on_set_config_masks tag front middle back secret two two' more =
    let inner = length-append middle back in
    let whole = length-append front (middle ++ back) in
    ground (
      arith,
      length_at_most_bytes (front ++ (middle ++ back)),
      take-append front (middle ++ back),
      drop-append (front ++ middle) back,
      append_assoc front middle back,
      length-append front middle,
    )

-- `OnSetConfig` panics exactly on a secret of less than four runes that takes more than four bytes.
pub on_set_config_panics :
    (tag : String) (value : Runes)
    → (on_set_config tag value ≡ none)
      ↔ ((is_secret tag ≡ true) × (length value < 4) × (4 < byte_len value))
unfolding on_set_config
on_set_config_panics tag value = ground arith
