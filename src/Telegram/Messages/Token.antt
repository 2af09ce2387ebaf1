-- ===== src/Telegram/Messages/Token.antt =====
-- maskToken of notifier.go.
use energy_plant_monitoring.Base.{
  ℕ, zero, suc, Bool, true, false, ◌||◌, ◌≡◌, refl, some, [], ◌∷◌, ◌==◌, length, arith, Bool-cases,
  inl, inr,
}
use energy_plant_monitoring.Telegram.{Text}
use energy_plant_monitoring.Telegram.Messages.{
  runes, is_blank, has_prefix, replace_text, mask_token,
}

-- `strings.Contains`
abbrev pub occurs : Text → Text → Bool
occurs part [] = is_blank part
occurs part (c ∷ s) = let later = occurs part s in has_prefix (c ∷ s) part || later

abbrev has_star : Text → Bool
has_star [] = false
has_star (c ∷ s) = let later = has_star s in c == b'*' || later

-- a part without stars begins the result only where it begins the text
prefix_before :
    (old part s : Text)
    → has_star part ≡ false
    → has_prefix (replace_text old (runes "***") zero s) part ≡ true
    → has_prefix s part ≡ true
prefix_before old [] s plain h = refl
prefix_before old (a ∷ part) [] plain h = h
prefix_before old (a ∷ part) (c ∷ s) plain h = elim (Bool-cases (has_prefix (c ∷ s) old)) [
  | inl mine ↦ absurd (ground arith)
  | inr other ↦ ground (arith, prefix_before old part s)
]

replaced_away :
    (a : ℕ) (token : Text) (skip : ℕ) (s : Text)
    → has_star (a ∷ token) ≡ false
    → occurs (a ∷ token) (replace_text (a ∷ token) (runes "***") skip s) ≡ false
replaced_away a token skip [] plain = refl
replaced_away a token (suc skip) (c ∷ s) plain = replaced_away a token skip s plain
replaced_away a token zero (c ∷ s) plain = elim (Bool-cases (has_prefix (c ∷ s) (a ∷ token))) [
  | inl mine ↦ ground (arith, replaced_away a token (length token) s plain)
  | inr other ↦
      elim (Bool-cases
        (has_prefix (replace_text (a ∷ token) (runes "***") zero (c ∷ s)) (a ∷ token))) [
          | inl again ↦
              absurd (ground (arith, prefix_before (a ∷ token) (a ∷ token) (c ∷ s) plain again))
          | inr fresh ↦ ground (arith, replaced_away a token zero s plain)
        ]
]

-- The token of the bot does not occur in an error text as it is logged, wherever and however often
-- it stood in the text: for a token that is not empty and has no star.
pub mask_token_hides :
    (bot_token text : Text)
    → is_blank bot_token ≡ false
    → has_star bot_token ≡ false
    → occurs bot_token (mask_token bot_token (some text)) ≡ false
unfolding mask_token
mask_token_hides [] text filled plain = absurd (ground arith)
mask_token_hides (a ∷ token) text filled plain = replaced_away a token zero text plain
