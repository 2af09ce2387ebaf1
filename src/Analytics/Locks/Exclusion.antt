-- ===== src/Analytics/Locks/Exclusion.antt =====
-- What the advisory locks of analytics_coordinator.go are for: a cycle runs on one replica at a time.
use energy_plant_monitoring.Base.{
  ℕ, Bool, true, false, ◌≡◌, Option, none, some, List, [], ◌∷◌, ◌==◌, arith, All,
}
use energy_plant_monitoring.Analytics.Locks.{
  AdvisoryLocks, Cluster, Action, began, finished, closed, act, acts,
}

abbrev pub closes : Action → Bool
closes (closed _) = true
closes _ = false

module _ {L : Type 0} (db : AdvisoryLocks L) (owner : ℕ → ℕ) where
  abbrev is_owned_by : ℕ → Option ℕ → Bool
  is_owned_by r none = false
  is_owned_by r (some s) = owner s == r

  -- a replica whose cycle runs holds the lock through one of its connections
  abbrev Held : Cluster L → Type 0
  Held c = (r id : ℕ) → c.working r id ≡ true → is_owned_by r (db.holder id c.locks) ≡ true

  act-Held : (a : Action) (c : Cluster L) → closes a ≡ false → Held c → Held (act db owner a c)
  unfolding act
  act-Held (began r id session e) c still h r' id' w = ground (
    arith,
    h r' id',
    db.try_lock_answers session id c.locks,
    db.try_lock_holds session id id' c.locks,
  )
  act-Held (finished r id session e) c still h r' id' w =
      ground (arith, h r' id', db.unlock_gives_up session id id' c.locks)
  act-Held (closed session) c still h r' id' w = absurd (ground arith)

  acts-Held :
      (actions : List Action) (c : Cluster L)
      → All (λ a. closes a ≡ false) actions
      → Held c
      → Held (acts db owner actions c)
  acts-Held [] c still h = h
  acts-Held (a ∷ actions) c still h =
      acts-Held actions (act db owner a c) still.1 (act-Held a c still.0 h)

  -- As long as no connection is closed, whatever connections the pools choose and whatever queries
  -- fail, no two replicas ever run a cycle under the same lock at the same time, if none runs at
  -- first.
  pub cycles_exclusive :
      (actions : List Action) (c : Cluster L)
      → ((r id : ℕ) → c.working r id ≡ false)
      → All (λ a. closes a ≡ false) actions
      → (r r' id : ℕ) → (acts db owner actions c).working r id ≡ true
      → (acts db owner actions c).working r' id ≡ true
      → r ≡ r'
  cycles_exclusive actions c idle still r r' id w w' =
      let h = acts-Held actions c still (λ r id w. absurd (ground (arith, idle r id))) in
      both (db.holder id (acts db owner actions c).locks) (h r id w) (h r' id w')
    where
      both : (o : Option ℕ) → is_owned_by r o ≡ true → is_owned_by r' o ≡ true → r ≡ r'
      both none p q = absurd (ground arith)
      both (some s) p q = ground arith
