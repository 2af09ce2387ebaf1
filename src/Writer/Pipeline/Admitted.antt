-- ===== src/Writer/Pipeline/Admitted.antt =====
-- The record of the events that a pipeline of dual_event_writer.go has admitted only grows.
use energy_plant_monitoring.Base.{
  ℕ, ◌≤◌, Bool, true, false, ◌≡◌, [], ◌∷◌, arith, tally, tally-append, Option-cases, inl, inr,
}
use energy_plant_monitoring.Writer.Pipeline.{
  Pipeline, Action, admit, enqueue, receive, tick, see_stop, finish, set_stopping, close_stop, pick,
  offer, act,
}

module _ {E : Type 0} (test : E → Bool) where
  abbrev pub admitted_count : Pipeline E → ℕ
  admitted_count p = tally test p.admitted

  offer_admitted : (e : E) (p : Pipeline E) → admitted_count (offer e p) ≡ admitted_count p
  unfolding offer
  offer_admitted e p = ground arith

  pub act_admitted : (p : Pipeline E) (a : Action E) → admitted_count p ≤ admitted_count (act p a)
  unfolding act
  act_admitted p (admit e) = ground (arith, tally-append test p.admitted (e ∷ []))
  act_admitted p (enqueue k) = elim (Option-cases (pick k p.in_flight)) [
    | inl e ↦ rw (e, act) (omega arith)
    | inr ((e, es), found) ↦
        rw (found, act) (omega (arith, offer_admitted e (record p { in_flight = es })))
  ]
  act_admitted p (receive i copied) = ground arith
  act_admitted p (tick i copied) = omega arith
  act_admitted p (see_stop i) = omega arith
  act_admitted p (finish i copied) = ground arith
  act_admitted p set_stopping = omega arith
  act_admitted p close_stop = ground arith

  pub admit_admits :
      (p : Pipeline E) (e : E)
      → p.stopping ≡ false
      → test e ≡ true
      → 1 ≤ admitted_count (act p (admit e))
  unfolding act
  admit_admits p e open_still passes = ground (arith, tally-append test p.admitted (e ∷ []))
