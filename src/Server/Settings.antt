-- ===== src/Server/Settings.antt =====
-- internal/infrastructure/conf: OnSetConfig of config.go, which logs each setting and masks the secret
-- ones. A value is the list of its runes, in valid UTF-8; a value that is no text is logged as it
-- is, and not modelled.
pub mod Masking
use energy_plant_monitoring.Base.{
  ℕ, zero, suc, ◌+◌, ◌-◌, String, Bool, true, false, ◌&&◌, ◌||◌, Option, none, some, List, [], ◌∷◌,
  ◌++◌, length, take, drop, ltb, if◌then◌else◌,
}
use energy_plant_monitoring.Alerts.{contains}

abbrev pub Runes : Type 0
Runes = List ℕ

-- the bytes of a rune in UTF-8
abbrev rune_len : ℕ → ℕ
rune_len r = if ltb r 0x80 then 1 else if ltb r 0x800 then 2 else if ltb r 0x10000 then 3 else 4

-- `len(s)`
abbrev pub byte_len : Runes → ℕ
byte_len [] = 0
byte_len (r ∷ s) = rune_len r + byte_len s

-- `strings.Repeat("*", n)` for a count that is not negative
abbrev pub stars : ℕ → Runes
stars zero = []
stars (suc n) = b'*' ∷ stars n

unfoldable pub is_secret : String → Bool
is_secret tag =
    contains tag "SECRET"
    || (contains tag "PASSWORD" || (contains tag "API_KEY" || contains tag "TOKEN"))

-- `none` is the panic of `strings.Repeat` for a negative count
mask : Runes → Option Runes
mask rune =
    if ltb (length rune) 4
    then none
    else some (take 2 rune ++ (stars (length rune - 4) ++ drop (length rune - 2) rune))

-- the value that is logged
unfoldable pub on_set_config : String → Runes → Option Runes
unfolding mask
on_set_config tag value = if is_secret tag && ltb 4 (byte_len value) then mask value else some value
