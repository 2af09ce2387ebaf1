-- ===== src/Rest/RateLimit.antt =====
-- internal/infrastructure/adapters/rest/ratelimit.go: a token bucket for each client address. The
-- map of buckets is a function from addresses; the bucket of golang.org/x/time/rate is a parameter.
-- Times are nanoseconds.
pub mod Isolation
use energy_plant_monitoring.Base.{
  ℕ, ◌+◌, ◌*◌, String, Bool, true, false, Option, none, some, List, [], ◌∷◌, ltb, if◌then◌else◌,
  str_eq,
}
use energy_plant_monitoring.Entities.{Time}

-- ten minutes
abbrev cleanup_age : ℕ
cleanup_age = 10 * 60000000000

-- `rate.NewLimiter(100, 20)`, and `Allow`, which may take a token of the bucket
pub record Rate (L : Type 0) : Type 0 where
  pub new_limiter : L
  pub allow : Time → L → Bool × L

pub record IpLimiter (L : Type 0) : Type 0 where
  pub limiter : L
  pub last_seen : Time

abbrev pub Limiters : Type 0 → Type 0
Limiters L = String → Option (IpLimiter L)

abbrev new_rate_limiter : {L : Type 0} → Limiters L
new_rate_limiter _ = none

-- a request of a client, and a tick of the cleanup
pub data Event : Type 0 where
  request : String → Time → Event
  cleanup : Time → Event

module _ {L : Type 0} (rate : Rate L) where
  entry_or_new : Option (IpLimiter L) → L
  entry_or_new none = rate.new_limiter
  entry_or_new (some e) = e.limiter

  abbrev pub set : String → IpLimiter L → Limiters L → Limiters L
  set ip e m k = if str_eq k ip then some e else m k

  -- `getLimiter` marks the entry as seen, and the middleware asks its bucket; true lets the request
  -- through
  unfoldable pub middleware : String → Time → Limiters L → Bool × Limiters L
  unfolding entry_or_new
  middleware ip now m =
      let (allowed, l) = rate.allow now (entry_or_new (m ip)) in
      (allowed, set ip (record { limiter = l; last_seen = now }) m)

  unless_stale : Time → Option (IpLimiter L) → Option (IpLimiter L)
  unless_stale now none = none
  unless_stale now (some e) = if ltb (e.last_seen + cleanup_age) now then none else some e

  -- one round of `cleanupLoop`
  unfoldable pub clean : Time → Limiters L → Limiters L
  unfolding unless_stale
  clean now m ip = unless_stale now (m ip)

  -- the answers to the requests of one client, in order
  unfoldable pub answers : String → Limiters L → List Event → List Bool
  answers ip m [] = []
  answers ip m (cleanup now ∷ events) = answers ip (clean now m) events
  answers ip m (request from now ∷ events) =
      let (allowed, m') = middleware from now m in
      let rest = answers ip m' events in if str_eq from ip then allowed ∷ rest else rest
