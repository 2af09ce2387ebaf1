-- ===== src/Rest/RateLimit/Isolation.antt =====
-- Clients do not use up each other's tokens (ratelimit.go).
use energy_plant_monitoring.Base.{
  String, ◌≡◌, refl, List, [], ◌∷◌, arith, if◌then◌else◌, str_eq, eq_iff, Bool-cases, inl, inr, sym,
  ap, ◌∙◌,
}
use energy_plant_monitoring.Rest.RateLimit.{
  Rate, Limiters, Event, request, cleanup, middleware, clean, answers,
}

-- the requests of one client, and the cleanups
abbrev pub of_client : String → List Event → List Event
of_client ip [] = []
of_client ip (cleanup now ∷ events) = cleanup now ∷ of_client ip events
of_client ip (request from now ∷ events) =
    let rest = of_client ip events in if str_eq from ip then request from now ∷ rest else rest

module _ {L : Type 0} (rate : Rate L) (ip : String) where
  -- from tables that agree on the client
  answers_agree :
      (m m' : Limiters L) (events : List Event)
      → m ip ≡ m' ip
      → answers rate ip m events ≡ answers rate ip m' (of_client ip events)
  unfolding answers middleware clean
  answers_agree m m' [] same = refl
  answers_agree m m' (cleanup now ∷ events) same =
      answers_agree (clean rate now m) (clean rate now m') events (ground arith)
  answers_agree m m' (request from now ∷ events) same = elim (Bool-cases (str_eq from ip)) [
    | inl mine ↦
        let p : from ≡ ip = (eq_iff from ip).0 mine in
        let same' : m from ≡ m' from = ap m p ∙ same ∙ sym (ap m' p) in
        ground (
          arith,
          (eq_iff ip from).1 (sym p),
          answers_agree (middleware rate from now m).1 (middleware rate from now m').1 events
              (ground (arith, (eq_iff ip from).1 (sym p))),
        )
    | inr other ↦ ground (
      arith,
      answers_agree (middleware rate from now m).1 m' events
          (ground (arith, eq_iff ip from, eq_iff from ip)),
    )
  ]

  -- The answers to a client's requests are those that it gets if no other client sends any: neither
  -- the number nor the times of the others' requests matter.
  pub answers_isolated :
      (m : Limiters L) (events : List Event)
      → answers rate ip m events ≡ answers rate ip m (of_client ip events)
  answers_isolated m events = answers_agree m m events refl
