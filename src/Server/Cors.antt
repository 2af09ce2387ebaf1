-- ===== src/Server/Cors.antt =====
-- main.go: the suffixes of the setting `AllowedCorsSuffixes` and `AllowOriginFunc`. A text is the list
-- of its bytes. What `strings.TrimSpace` takes off is a parameter.
pub mod Origins
use energy_plant_monitoring.Base.{
  ℕ, ◌-◌, Bool, true, false, not, ◌&&◌, ◌||◌, List, [], ◌∷◌, ◌==◌, leb, length, drop, if◌then◌else◌,
}

abbrev pub Text : Type 0
Text = List ℕ

abbrev pub text_eq : Text → Text → Bool
text_eq [] [] = true
text_eq (a ∷ s) (b ∷ t) = a == b && text_eq s t
text_eq _ _ = false

-- one more byte for the first part
abbrev pub onto_first : ℕ → List Text → List Text
onto_first c [] = (c ∷ []) ∷ []
onto_first c (part ∷ parts) = (c ∷ part) ∷ parts

-- `strings.Split(s, ",")`
unfoldable pub split_comma : Text → List Text
split_comma [] = [] ∷ []
split_comma (c ∷ s) = let rest = split_comma s in if c == b',' then [] ∷ rest else onto_first c rest

-- `strings.HasPrefix`
abbrev pub has_prefix : Text → Text → Bool
has_prefix s [] = true
has_prefix [] (_ ∷ _) = false
has_prefix (a ∷ s) (b ∷ t) = a == b && has_prefix s t

-- `strings.HasSuffix`
unfoldable pub has_suffix : Text → Text → Bool
has_suffix s suffix =
    leb (length suffix) (length s) && text_eq (drop (length s - length suffix) s) suffix

abbrev pub is_blank : Text → Bool
is_blank [] = true
is_blank _ = false

-- "http://localhost:"
abbrev pub localhost : Text
localhost =
    b'h' ∷ b't' ∷ b't' ∷ b'p' ∷ b':' ∷ b'/' ∷ b'/' ∷ b'l' ∷ b'o' ∷ b'c' ∷ b'a' ∷ b'l' ∷ b'h' ∷ b'o'
    ∷ b's' ∷ b't' ∷ b':' ∷ []

module _ (trim_space : Text → Text) where
  -- the loop that fills `allowedSuffixes`
  trimmed : List Text → List Text
  trimmed [] = []
  trimmed (suffix ∷ rest) =
      let more = trimmed rest in
      if not (is_blank (trim_space suffix)) then trim_space suffix ∷ more else more

  unfoldable pub allowed_suffixes : Text → List Text
  unfolding trimmed split_comma
  allowed_suffixes setting = trimmed (split_comma setting)

  ends_in_one : Text → List Text → Bool
  ends_in_one origin [] = false
  ends_in_one origin (suffix ∷ rest) =
      if has_suffix origin suffix then true else ends_in_one origin rest

  unfoldable pub allow_origin : Text → Text → Bool
  unfolding ends_in_one
  allow_origin setting origin =
      if has_prefix origin localhost then true else ends_in_one origin (allowed_suffixes setting)
