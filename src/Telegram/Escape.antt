-- ===== src/Telegram/Escape.antt =====
-- escapeHTML of notifier.go.
use energy_plant_monitoring.Base.{
  ℕ, Bool, false, ◌≡◌, refl, [], ◌∷◌, ◌++◌, arith, ◌==◌, ◌||◌, if◌then◌else◌,
}
use energy_plant_monitoring.Telegram.{Text, amp_entity, lt_entity, gt_entity, escape_html}

-- what one byte becomes
abbrev escaped : ℕ → Text
escaped b =
    if b == b'&'
    then amp_entity
    else if b == b'<'
    then lt_entity
    else if b == b'>'
    then gt_entity
    else b ∷ []

-- each byte escaped by itself
abbrev escape_each : Text → Text
escape_each [] = []
escape_each (b ∷ s) = escaped b ++ escape_each s

abbrev pub has_bracket : Text → Bool
has_bracket [] = false
has_bracket (b ∷ s) = let rest = has_bracket s in b == b'<' || b == b'>' || rest

-- The three replacements, one after the other, escape each byte once: no ampersand that a
-- replacement brings in is escaped again, and the result holds no angle bracket.
pub escape_html_once :
    (s : Text) → (escape_html s ≡ escape_each s) × (has_bracket (escape_html s) ≡ false)
unfolding escape_html
escape_html_once [] = (refl, refl)
escape_html_once (b ∷ s) = ground (arith, escape_html_once s)
