-- ===== src/Telegram/Messages/Markup.antt =====
-- The markup of the notifications (formatErrorMessage of notifier.go).
use energy_plant_monitoring.Base.{
  ℕ, Bool, false, ◌||◌, ◌≡◌, refl, [], ◌∷◌, ◌++◌, ◌==◌, tally, tally-append, if◌then◌else◌, arith,
}
use energy_plant_monitoring.Telegram.{Text, escape_html}
use energy_plant_monitoring.Telegram.Escape.{has_bracket, escape_html_once}
use energy_plant_monitoring.Telegram.Messages.{runes, is_blank, context_line, format_error_message}

abbrev is_bracket : ℕ → Bool
is_bracket b = b == b'<' || b == b'>'

no_brackets : (s : Text) → has_bracket s ≡ false → tally is_bracket s ≡ 0
no_brackets [] h = refl
no_brackets (b ∷ s) h = ground (arith, no_brackets s)

escaped_none : (s : Text) → tally is_bracket (escape_html s) ≡ 0
escaped_none s = no_brackets (escape_html s) (escape_html_once s).1

after_escaped : (s t : Text) → tally is_bracket (escape_html s ++ t) ≡ tally is_bracket t
after_escaped s t = omega (arith, tally-append is_bracket (escape_html s) t, escaped_none s)

context_brackets :
    (context : Text) → tally is_bracket (context_line context) ≡ (if is_blank context then 0 else 4)
unfolding context_line
context_brackets [] = refl
context_brackets (c ∷ context) = ground (
  arith,
  tally-append is_bracket (escape_html (c ∷ context)) (runes "\n"),
  escaped_none (c ∷ context),
)

-- The brackets of the markup are the same whatever the four texts hold: five tags opened and closed
-- again, and a sixth where there is a context. No text brings in markup of its own.
format_error_message_markup :
    (timestamp error_type message context : Text)
    → tally is_bracket (format_error_message timestamp error_type message context)
      ≡ (if is_blank context then 20 else 24)
unfolding format_error_message
format_error_message_markup timestamp error_type message context =
    rw
      (
        after_escaped timestamp,
        after_escaped error_type,
        after_escaped message,
        tally-append is_bracket (context_line context),
        context_brackets context,
      )
      (ground arith)
