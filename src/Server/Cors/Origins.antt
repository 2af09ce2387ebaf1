-- ===== src/Server/Cors/Origins.antt =====
-- Which origins `AllowOriginFunc` (main.go) lets in.
use energy_plant_monitoring.Base.{
  ◌-◌, true, not, ◌&&◌, ◌≡◌, ◌≢◌, ◌↔◌, ◌⊎◌, inl, inr, refl, ap, List, [], ◌∷◌, ◌++◌, length, take,
  drop, arith, Bool-cases, take-append-drop, length-append, drop-append,
}
use energy_plant_monitoring.Server.Cors.{
  Text, text_eq, split_comma, has_prefix, has_suffix, is_blank, localhost, trimmed,
  allowed_suffixes, ends_in_one, allow_origin,
}

text_eq_iff : (s t : Text) → (text_eq s t ≡ true) ↔ (s ≡ t)
text_eq_iff [] [] = ground arith
text_eq_iff [] (b ∷ t) = ground arith
text_eq_iff (a ∷ s) [] = ground arith
text_eq_iff (a ∷ s) (b ∷ t) = ground (arith, text_eq_iff s t)

has_suffix_iff :
    (s suffix : Text) → (has_suffix s suffix ≡ true) ↔ ((front : Text) × (s ≡ front ++ suffix))
unfolding has_suffix
has_suffix_iff s suffix = (
  λ h.
      let n = length s - length suffix in
      (take n s, ground (arith, take-append-drop n s, text_eq_iff (drop n s) suffix)),
  λ (front, e).
      ground
        (arith, length-append front suffix, drop-append front suffix, text_eq_iff suffix suffix),
)

has_prefix_iff :
    (s prefix : Text) → (has_prefix s prefix ≡ true) ↔ ((rest : Text) × (s ≡ prefix ++ rest))
has_prefix_iff s [] = (λ h. (s, refl), λ h. refl)
has_prefix_iff [] (b ∷ prefix) = (λ h. absurd (ground arith), λ (rest, e). absurd (ground arith))
has_prefix_iff (a ∷ s) (b ∷ prefix) = (
  λ h. let (rest, e) = (has_prefix_iff s prefix).0 (ground arith) in (rest, ground arith),
  λ (rest, e). ground (arith, (has_prefix_iff s prefix).1 (rest, ground arith)),
)

-- one of the parts, trimmed and not blank, ends the origin
pub record HasEnding (trim_space : Text → Text) (parts : List Text) (origin : Text) : Type 0 where
  pub before : List Text
  pub part : Text
  pub after : List Text
  pub front : Text
  pub listed : parts ≡ before ++ (part ∷ after)
  pub filled : trim_space part ≢ []
  pub ends : origin ≡ front ++ trim_space part

module _ (trim_space : Text → Text) (origin : Text) where
  blank_iff : (s : Text) → (is_blank s ≡ true) ↔ (s ≡ [])
  blank_iff [] = ground arith
  blank_iff (c ∷ s) = (λ h. absurd (ground arith), λ h. absurd (ground arith))

  ends-HasEnding :
      (parts : List Text)
      → ends_in_one trim_space origin (trimmed trim_space parts) ≡ true
      → HasEnding trim_space parts origin
  unfolding ends_in_one trimmed
  ends-HasEnding [] h = absurd (ground arith)
  ends-HasEnding (p ∷ parts) h =
      elim (Bool-cases (not (is_blank (trim_space p)) && has_suffix origin (trim_space p))) [
        | inl mine ↦
            let (front, e) = (has_suffix_iff origin (trim_space p)).0 (ground arith) in
            record {
              before = [];
              part = p;
              after = parts;
              front = front;
              listed = refl;
              filled = λ b. absurd (ground (arith, blank_iff (trim_space p)));
              ends = e;
            }
        | inr other ↦
            let rest = ends-HasEnding parts (ground arith) in
            record {
              before = p ∷ rest.before;
              part = rest.part;
              after = rest.after;
              front = rest.front;
              listed = ap (λ l. p ∷ l) rest.listed;
              filled = rest.filled;
              ends = rest.ends;
            }
      ]

  HasEnding-ends :
      (before after : List Text) (part front : Text)
      → trim_space part ≢ []
      → origin ≡ front ++ trim_space part
      → ends_in_one trim_space origin (trimmed trim_space (before ++ (part ∷ after))) ≡ true
  unfolding ends_in_one trimmed
  HasEnding-ends [] after part front filled e =
      let mine = (has_suffix_iff origin (trim_space part)).1 (front, e) in
      elim (Bool-cases (is_blank (trim_space part))) [
        | inl blank ↦ absurd (filled ((blank_iff (trim_space part)).0 blank))
        | inr more ↦ ground arith
      ]
  HasEnding-ends (p ∷ before) after part front filled e =
      ground (arith, HasEnding-ends before after part front filled e)

  -- An origin is allowed exactly if it begins with "http://localhost:", or ends in a part of the
  -- setting, split at the commas, that is trimmed and not empty then.
  pub allow_origin_iff :
      (setting : Text)
      → (allow_origin trim_space setting origin ≡ true) ↔ (
          ((rest : Text) × (origin ≡ localhost ++ rest))
          ⊎ HasEnding trim_space (split_comma setting) origin)
  unfolding allow_origin allowed_suffixes
  allow_origin_iff setting = (
    λ h. elim (Bool-cases (has_prefix origin localhost)) [
      | inl local ↦ inl ((has_prefix_iff origin localhost).0 local)
      | inr other ↦ inr (ends-HasEnding (split_comma setting) (ground arith))
    ],
    λ allowed. elim allowed [
      | inl local ↦ ground (arith, (has_prefix_iff origin localhost).1 local)
      | inr e ↦ elim (Bool-cases (has_prefix origin localhost)) [
        | inl local ↦ ground arith
        | inr other ↦
            let ending = HasEnding-ends e.before e.after e.part e.front e.filled e.ends in
            ground (arith, ending, e.listed)
      ]
    ],
  )
