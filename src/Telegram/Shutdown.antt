-- ===== src/Telegram/Shutdown.antt =====
-- Delivery and shutdown of the Telegram notifier (notifier.go).
use mathlib.Core.List.{append_assoc, append-nil}
use energy_plant_monitoring.Base.{
  ◌≤◌, true, false, ◌≡◌, refl, sym, ◌∙◌, ap, List, [], ◌∷◌, ◌++◌, arith, length, length-append,
}
use energy_plant_monitoring.Telegram.{
  Text, alert_capacity, Notifier, new_notifier, enqueue, worker_step, Step, enqueued, stopping,
  closing, worked, step, steps,
}

-- no send on a closed channel, a channel within its capacity, and every accepted message handed
-- over or queued, in order
pub record Sound (n : Notifier) : Type 0 where
  pub calm : n.panicked ≡ false
  pub fits : length n.alert_chan ≤ alert_capacity
  pub ordered : n.accepted ≡ n.handed ++ n.alert_chan

record Inv (n : Notifier) : Type 0 where
  sound : Sound n
  closed_stopped : n.closed ≡ true → n.stopped ≡ true
  done_closed : n.worker_done ≡ true → n.closed ≡ true
  done_empty : n.worker_done ≡ true → n.alert_chan ≡ []

enqueue-Inv : (text : Text) (n : Notifier) → Inv n → Inv (enqueue text n)
unfolding enqueue
enqueue-Inv text n inv =
    let s = inv.sound in
    ground (
      arith,
      inv.closed_stopped,
      inv.done_closed,
      inv.done_empty,
      s.calm,
      s.fits,
      s.ordered,
      length-append n.alert_chan (text ∷ []),
      append_assoc n.handed n.alert_chan (text ∷ []),
    )

worker_step-Inv : (n : Notifier) → Inv n → Inv (worker_step n)
unfolding worker_step
worker_step-Inv n inv = go n.alert_chan refl
  where
    go : (channel : List Text) → n.alert_chan ≡ channel → Inv (worker_step n)
    go [] e =
        let s = inv.sound in
        ground (arith, inv.closed_stopped, inv.done_closed, s.calm, s.fits, s.ordered)
    go (text ∷ rest) e =
        let s = inv.sound in
        ground (
          arith,
          inv.closed_stopped,
          inv.done_closed,
          inv.done_empty,
          s.calm,
          s.fits,
          s.ordered,
          append_assoc n.handed (text ∷ []) rest,
        )

step-Inv : (n : Notifier) (s : Step) → Inv n → Inv (step n s)
unfolding step
step-Inv n (enqueued text) inv = enqueue-Inv text n inv
step-Inv n stopping inv =
    let s = inv.sound in ground (arith, inv.done_closed, inv.done_empty, s.calm, s.fits, s.ordered)
step-Inv n closing inv =
    let s = inv.sound in
    ground (arith, inv.closed_stopped, inv.done_closed, inv.done_empty, s.calm, s.fits, s.ordered)
step-Inv n worked inv = worker_step-Inv n inv

steps-Inv : (n : Notifier) (todo : List Step) → Inv n → Inv (steps n todo)
unfolding steps
steps-Inv n [] inv = inv
steps-Inv n (s ∷ todo) inv = steps-Inv (step n s) todo (step-Inv n s inv)

new_notifier-Inv : Inv new_notifier
new_notifier-Inv = ground arith

-- Whatever the interleaving of senders, worker and `Stop`: nothing is sent on the closed channel,
-- the channel holds at most `alert_capacity` messages, and the messages accepted since the start
-- are those handed to the API followed by those in the channel, in the order of their acceptance.
pub steps-Sound : (todo : List Step) → Sound (steps new_notifier todo)
steps-Sound todo = (steps-Inv new_notifier todo new_notifier-Inv).sound

-- a step after the worker has ended
finished_step :
    (n : Notifier) (s : Step)
    → Inv n
    → n.worker_done ≡ true
    → ((step n s).accepted ≡ n.accepted)
      × ((step n s).handed ≡ n.handed)
      × ((step n s).worker_done ≡ true)
unfolding step
finished_step n (enqueued text) inv d = ground (arith, inv.closed_stopped (inv.done_closed d))
finished_step n stopping inv d = ground arith
finished_step n closing inv d = ground arith
finished_step n worked inv d = ground (arith, inv.done_empty d)

finished_steps :
    (n : Notifier) (todo : List Step)
    → Inv n
    → n.worker_done ≡ true
    → ((steps n todo).accepted ≡ n.accepted) × ((steps n todo).handed ≡ n.handed)
unfolding steps
finished_steps n [] inv d = (refl, refl)
finished_steps n (s ∷ todo) inv d =
    let (same, same', d') = finished_step n s inv d in
    let (rest, rest') = finished_steps (step n s) todo (step-Inv n s inv) d' in
    (rest ∙ same, rest' ∙ same')

-- When the worker has ended, which is what `Stop` waits for, every message that was accepted has
-- been handed to the API, in order, and whatever steps follow, nothing is accepted or handed over.
pub stop_hands_over :
    (todo later : List Step)
    → (steps new_notifier todo).worker_done ≡ true
    → ((steps new_notifier todo).handed ≡ (steps new_notifier todo).accepted)
      × ((steps (steps new_notifier todo) later).accepted ≡ (steps new_notifier todo).accepted)
      × ((steps (steps new_notifier todo) later).handed ≡ (steps new_notifier todo).handed)
stop_hands_over todo later finished =
    let n = steps new_notifier todo in
    let inv = steps-Inv new_notifier todo new_notifier-Inv in
    let (same, same') = finished_steps n later inv finished in
    (
      sym (
          inv.sound.ordered
          ∙ ap (λ l. n.handed ++ l) (inv.done_empty finished)
          ∙ append-nil n.handed),
      same,
      same',
    )
