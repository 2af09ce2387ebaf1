-- ===== src/Telegram.antt =====
-- internal/infrastructure/adapters/telegram/notifier.go: the bounded queue of alerts, its worker and
-- `Stop`, as interleavings of atomic steps. `enqueue` holds the mutex and is one step; `Stop` sets
-- the flag under the mutex and closes the channel in a later step. The request to the Telegram API
-- is not modelled: a message that the worker takes is handed to it. Texts are lists of bytes.
pub mod Shutdown
pub mod Escape
pub mod Messages
use energy_plant_monitoring.Base.{
  ℕ, Bool, true, false, not, ◌&&◌, List, [], ◌∷◌, ◌++◌, length, ltb, ◌==◌, if◌then◌else◌,
}

abbrev pub Text : Type 0
Text = List ℕ

-- the capacity of `alertChan`
abbrev pub alert_capacity : ℕ
alert_capacity = 100

-- `closed` is the closed channel and `worker_done` the end of the worker. `accepted` and `handed`
-- record the messages that entered the channel and those that the worker handed to `sendMessage`;
-- `panicked` a send on the closed channel.
pub record Notifier : Type 0 where
  pub alert_chan : List Text
  pub stopped : Bool
  pub closed : Bool
  pub worker_done : Bool
  pub accepted : List Text
  pub handed : List Text
  pub panicked : Bool

abbrev pub new_notifier : Notifier
new_notifier = record {
  alert_chan = [];
  stopped = false;
  closed = false;
  worker_done = false;
  accepted = [];
  handed = [];
  panicked = false;
}

-- a full channel drops the message
unfoldable pub enqueue : Text → Notifier → Notifier
enqueue text n =
    if n.stopped
    then n
    else if n.closed
    then record n { panicked = true }
    else if ltb (length n.alert_chan) alert_capacity
    then record n { alert_chan = n.alert_chan ++ text ∷ []; accepted = n.accepted ++ text ∷ [] }
    else n

-- the two steps of `Stop`; `stopOnce` admits one goroutine
unfoldable set_stopped : Notifier → Notifier
set_stopped n = record n { stopped = true }

unfoldable close_channel : Notifier → Notifier
close_channel n = if n.stopped then record n { closed = true } else n

-- the `range` over the channel ends when it is closed and empty
unfoldable pub worker_step : Notifier → Notifier
worker_step n = elim n.alert_chan [
  | text ∷ rest ↦
      if n.worker_done then n else record n { alert_chan = rest; handed = n.handed ++ text ∷ [] }
  | [] ↦ if n.closed then record n { worker_done = true } else n
]

pub data Step : Type 0 where
  enqueued : Text → Step
  stopping closing worked : Step

unfoldable pub step : Notifier → Step → Notifier
unfolding enqueue set_stopped close_channel worker_step
step n (enqueued text) = enqueue text n
step n stopping = set_stopped n
step n closing = close_channel n
step n worked = worker_step n

unfoldable pub steps : Notifier → List Step → Notifier
steps n [] = n
steps n (s ∷ rest) = steps (step n s) rest

-- `strings.ReplaceAll` for an old text of one byte
unfoldable replace_all : ℕ → Text → Text → Text
replace_all c new [] = []
replace_all c new (b ∷ s) =
    let rest = replace_all c new s in if b == c then new ++ rest else b ∷ rest

-- the texts "&amp;", "&lt;" and "&gt;"
abbrev pub amp_entity : Text
amp_entity = b'&' ∷ b'a' ∷ b'm' ∷ b'p' ∷ b';' ∷ []

abbrev pub lt_entity : Text
lt_entity = b'&' ∷ b'l' ∷ b't' ∷ b';' ∷ []

abbrev pub gt_entity : Text
gt_entity = b'&' ∷ b'g' ∷ b't' ∷ b';' ∷ []

unfoldable pub escape_html : Text → Text
unfolding replace_all
escape_html s =
    replace_all b'>' gt_entity (replace_all b'<' lt_entity (replace_all b'&' amp_entity s))
