-- ===== src/Analytics/Locks.antt =====
-- The advisory locks of analytics_coordinator.go: tryAdvisoryLock and releaseAdvisoryLock of several
-- replicas, each through its own pool of connections to one PostgreSQL. A lock belongs to a
-- connection, and the pool may give another one to the release than it gave to the acquisition.
pub mod Exclusion
pub mod Leak
use energy_plant_monitoring.Base.{
  ℕ, Bool, true, false, ◌&&◌, ◌≡◌, Option, none, some, List, [], ◌∷◌, ◌==◌, if◌then◌else◌, not,
}
use energy_plant_monitoring.Errors.{Error, is_nil}

abbrev pub is_held_by : ℕ → Option ℕ → Bool
is_held_by session none = false
is_held_by session (some s) = s == session

abbrev pub is_free_for : ℕ → Option ℕ → Bool
is_free_for session none = true
is_free_for session (some s) = s == session

-- PostgreSQL's advisory locks: the session that holds a lock, `pg_try_advisory_lock`,
-- `pg_advisory_unlock`, which gives up one of the holds of the session that calls it and only warns
-- if it has none, and the end of a session, which gives up all. `is_last_hold` says whether the
-- session holds the lock just once.
pub record AdvisoryLocks (L : Type 0) : Type 0 where
  pub holder : ℕ → L → Option ℕ
  pub is_last_hold : ℕ → ℕ → L → Bool
  pub try_lock : ℕ → ℕ → L → Bool × L
  pub unlock : ℕ → ℕ → L → L
  pub end_session : ℕ → L → L
  pub try_lock_answers : (s id : ℕ) (l : L) → (try_lock s id l).0 ≡ is_free_for s (holder id l)
  pub try_lock_holds :
      (s id other : ℕ) (l : L)
      → holder other (try_lock s id l).1
        ≡ (if other == id && is_free_for s (holder id l) then some s else holder other l)
  pub unlock_gives_up :
      (s id other : ℕ) (l : L)
      → holder other (unlock s id l) ≡ (
          if other == id && (is_held_by s (holder id l) && is_last_hold s id l)
          then none
          else holder other l)
  pub end_session_gives_up :
      (s id : ℕ) (l : L)
      → holder id (end_session s l) ≡ (if is_held_by s (holder id l) then none else holder id l)

-- the locks, and for a replica and a lock whether its cycle runs
pub record Cluster (L : Type 0) : Type 0 where
  pub locks : L
  pub working : ℕ → ℕ → Bool

pub data Action : Type 0 where
  -- a replica starts a cycle under a lock, through a connection, with the error of the query
  began : ℕ → ℕ → ℕ → Error → Action
  -- the deferred release, with the error of the statement
  finished : ℕ → ℕ → ℕ → Error → Action
  -- a pool closes a connection
  closed : ℕ → Action

abbrev mark : ℕ → ℕ → Bool → (ℕ → ℕ → Bool) → ℕ → ℕ → Bool
mark replica id value working r i = if r == replica && i == id then value else working r i

module _ {L : Type 0} (db : AdvisoryLocks L) (owner : ℕ → ℕ) where
  -- an error of the query counts as a lock that was not acquired
  unfoldable pub try_advisory_lock : ℕ → ℕ → Error → L → Bool × L
  try_advisory_lock id session e l = if is_nil e then db.try_lock session id l else (false, l)

  -- an error is only logged
  unfoldable pub release_advisory_lock : ℕ → ℕ → Error → L → L
  release_advisory_lock id session e l = if is_nil e then db.unlock session id l else l

  -- an action that is not possible, a cycle that runs already, that does not run, or a connection
  -- of another replica, does nothing
  unfoldable pub act : Action → Cluster L → Cluster L
  unfolding try_advisory_lock release_advisory_lock
  act (began r id session e) c =
      if owner session == r && not (c.working r id)
      then (let (acquired, l) = try_advisory_lock id session e c.locks in
          record { locks = l; working = mark r id acquired c.working })
      else c
  act (finished r id session e) c =
      if owner session == r && c.working r id
      then record {
        locks = release_advisory_lock id session e c.locks;
        working = mark r id false c.working;
      }
      else c
  act (closed session) c = record c { locks = db.end_session session c.locks }

  abbrev pub acts : List Action → Cluster L → Cluster L
  acts [] c = c
  acts (a ∷ rest) c = acts rest (act a c)
