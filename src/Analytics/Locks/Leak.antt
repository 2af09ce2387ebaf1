-- ===== src/Analytics/Locks/Leak.antt =====
-- A release of an advisory lock of analytics_coordinator.go through another connection than the one
-- that acquired it.
use energy_plant_monitoring.Base.{ℕ, Bool, true, false, ◌≡◌, some, List, [], ◌∷◌, ◌==◌, arith, All}
use energy_plant_monitoring.Errors.{Error}
use energy_plant_monitoring.Analytics.Locks.{
  AdvisoryLocks, Cluster, Action, began, finished, closed, act, acts,
}
use energy_plant_monitoring.Analytics.Locks.Exclusion.{closes, cycles_exclusive}

-- an action that goes through a connection or closes it
abbrev touches : ℕ → Action → Bool
touches s (began _ _ session _) = session == s
touches s (finished _ _ session _) = session == s
touches s (closed session) = session == s

module _ {L : Type 0} (db : AdvisoryLocks L) (owner : ℕ → ℕ) (id s : ℕ) where
  -- a connection holds the lock, and no cycle runs under it
  abbrev Leaked : Cluster L → Type 0
  Leaked c = (db.holder id c.locks ≡ some s) × ((r : ℕ) → c.working r id ≡ false)

  act-Leaked :
      (a : Action) (c : Cluster L) → touches s a ≡ false → Leaked c → Leaked (act db owner a c)
  unfolding act
  act-Leaked (began r i session e) c other h = (
    ground (arith, h.0, db.try_lock_holds session i id c.locks),
    λ r'. ground (arith, h.0, h.1 r', db.try_lock_answers session i c.locks),
  )
  act-Leaked (finished r i session e) c other h =
      (ground (arith, h.0, db.unlock_gives_up session i id c.locks), λ r'. ground (arith, h.1 r'))
  act-Leaked (closed session) c other h =
      (ground (arith, h.0, db.end_session_gives_up session id c.locks), h.1)

  acts-Leaked :
      (actions : List Action) (c : Cluster L)
      → All (λ a. touches s a ≡ false) actions
      → Leaked c
      → Leaked (acts db owner actions c)
  acts-Leaked [] c others h = h
  acts-Leaked (a ∷ actions) c others h =
      acts-Leaked actions (act db owner a c) others.1 (act-Leaked a c others.0 h)

  finished_elsewhere :
      (c : Cluster L) (r s' : ℕ) (e : Error)
      → owner s' ≡ r
      → (s == s') ≡ false
      → c.working r id ≡ true
      → db.holder id c.locks ≡ some s
      → ((r' : ℕ) → c.working r' id ≡ true → r' ≡ r)
      → Leaked (act db owner (finished r id s' e) c)
  unfolding act
  finished_elsewhere c r s' e own other runs holds alone =
      (ground (arith, db.unlock_gives_up s' id id c.locks), λ r'. ground (arith, alone r'))

  -- If a cycle holds its lock through one connection and the release goes through another, then the
  -- lock is not released: until the first connection is used again or closed, no replica runs a
  -- cycle under it, whatever the replicas try.
  pub release_elsewhere_leaks :
      (before later : List Action) (c : Cluster L) (r s' : ℕ) (e : Error)
      → ((r id : ℕ) → c.working r id ≡ false)
      → All (λ a. closes a ≡ false) before
      → (acts db owner before c).working r id ≡ true
      → db.holder id (acts db owner before c).locks ≡ some s
      → owner s' ≡ r
      → (s == s') ≡ false
      → All (λ a. touches s a ≡ false) later
      → (r' : ℕ)
      → (acts db owner later (act db owner (finished r id s' e) (acts db owner before c))).working
          r' id
        ≡ false
  release_elsewhere_leaks before later c r s' e idle kept runs holds own other rest r' =
      let now = acts db owner before c in
      (acts-Leaked later (act db owner (finished r id s' e) now) rest (
          finished_elsewhere now r s' e own other runs holds
            (λ r'' w. cycles_exclusive db owner before c idle kept r'' r id w runs))).1
        r'
