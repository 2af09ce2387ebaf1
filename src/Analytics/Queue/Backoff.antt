-- ===== src/Analytics/Queue/Backoff.antt =====
-- The exponential backoff of UpdateWebhookStatus (analytics_worker_repo.go).
use native.Mathlib.Nat.{pow-le-pow_right, mod-eq_of_lt, mod-lt}
use energy_plant_monitoring.Base.{
  ℕ, ◌+◌, ◌*◌, ◌/◌, ◌%◌, ◌^◌, ◌≤◌, ◌<◌, String, ◌≡◌, refl, some, arith, min,
}
use energy_plant_monitoring.Entities.{Time}
use energy_plant_monitoring.Analytics.Queue.{
  WebhookQueueItem, retrying, backoff_base, update_item, second, max_backoff, int_sign, int_mod,
  text_or_nil,
}

-- the last number of attempts at which `30 * (1 << attempts)` is an `int`
abbrev pub last_shift : ℕ
last_shift = 58

shift_fits : (attempts : ℕ) → attempts ≤ last_shift → 30 * 2 ^ attempts < int_sign
shift_fits attempts h = omega (arith, pow-le-pow_right {n = 2} (omega arith) {j = last_shift} h)

-- Up to `last_shift` attempts the base of the backoff is 30 seconds doubled with each attempt and
-- capped, with no overflow.
backoff_base-eq :
    (attempts : ℕ)
    → attempts ≤ last_shift
    → backoff_base attempts ≡ some (min (30 * 2 ^ attempts) max_backoff)
unfolding backoff_base
backoff_base-eq attempts h =
    let fits = shift_fits attempts h in
    let exact : 30 * 2 ^ attempts % int_mod ≡ 30 * 2 ^ attempts = mod-eq_of_lt (omega arith) in
    rw exact (ground arith)

thirty-le-shift : (attempts : ℕ) → 30 ≤ 30 * 2 ^ attempts
thirty-le-shift attempts =
    omega (arith, pow-le-pow_right {n = 2} (omega arith) {i = 0} {j = attempts} (omega arith))

-- Up to `last_shift` attempts an update to `retrying` does not panic. It counts the attempt and
-- schedules the next one after a backoff of at least the base, which is 30 seconds doubled with each
-- attempt so far and capped at `max_backoff`, and of at most a third more; so between 30 and 640
-- seconds.
pub update_item_backoff :
    (now : Time) (draw : ℕ) (error_msg : String) (item : WebhookQueueItem)
    → item.attempts ≤ last_shift
    → (backoff : ℕ) × (item' : WebhookQueueItem) × (update_item now draw retrying error_msg item
        ≡ some item')
      × (item'.attempts ≡ item.attempts + 1)
      × (item'.next_retry_at ≡ some (now + backoff * second))
      × (min (30 * 2 ^ item.attempts) max_backoff ≤ backoff)
      × (backoff
          ≤ min (30 * 2 ^ item.attempts) max_backoff + min (30 * 2 ^ item.attempts) max_backoff / 3)
      × (30 ≤ backoff)
      × (backoff ≤ 640)
unfolding update_item
update_item_backoff now draw error_msg item h =
    let base = min (30 * 2 ^ item.attempts) max_backoff in
    let backoff = base + draw % (base / 3 + 1) in
    let small = mod-lt draw {m = base / 3 + 1} (omega arith) in
    let low = thirty-le-shift item.attempts in
    (
      backoff,
      record item {
        status = retrying;
        last_attempt = some now;
        error_message = text_or_nil error_msg;
        next_retry_at = some (now + backoff * second);
        attempts = item.attempts + 1;
      },
      rw (backoff_base-eq item.attempts h, update_item) refl,
      refl,
      refl,
      omega arith,
      omega arith,
      omega arith,
      omega arith,
    )
