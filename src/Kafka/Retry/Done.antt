-- ===== src/Kafka/Retry/Done.antt =====
-- Where handleWithRetry (internal/api/kafka_service.go) ends when it reports a message as done and
-- sends no dead letter.
use energy_plant_monitoring.Base.{
  ℕ, zero, suc, ◌+◌, ◌*◌, String, true, ◌≡◌, [], ◌∷◌, arith, tally, if◌then◌else◌, Bool-cases, inl,
  inr,
}
use energy_plant_monitoring.Errors.{Error, is_nil, is_permanent, message}
use energy_plant_monitoring.Kafka.{
  Bytes, Client, Handler, handled, before, Outcome, to_dlq, retry, handle_with_retry, max_retries,
}
use energy_plant_monitoring.Kafka.Retry.{is_dlq, to_dlq_lem}
use Prim.Native.String.{◌++◌ as text_append}

module _ {W : Type 0} (client : Client W) (handler : Handler W) (id topic : String)
    (msg : Bytes) where
  -- the world is as a run of the handler without error left it
  abbrev LastRun : W → Type 0
  LastRun w' = (w : W) × (is_nil (handler msg w).0 ≡ true) × (w' ≡ (handler msg w).1)

  abbrev Done : Outcome W → Type 0
  Done o = o.success ≡ true → tally is_dlq o.calls ≡ 0 → LastRun o.world

  retry-Done :
      (left attempt : ℕ) (err : Error) (w : W)
      → Done (retry client handler id topic msg left attempt err w)
  unfolding retry
  retry-Done zero attempt err w done quiet = absurd (
      ground (
        arith,
        to_dlq_lem client handler id topic msg (text_append "max retries exhausted: " (message err))
            "max_retries" w,
      ))
  retry-Done (suc left) attempt err w done quiet =
      let w₁ = (client.wait (attempt * attempt) w).1 in
      let err' = (handler msg w₁).0 in
      let w₂ = (handler msg w₁).1 in
      let sent = to_dlq_lem client handler id topic msg (message err') "permanent" w₂ in
      elim (Bool-cases (client.wait (attempt * attempt) w).0) [
        | inr cancelled ↦ absurd (ground arith)
        | inl fired ↦ elim (Bool-cases (is_nil err')) [
          | inl fine ↦ (w₁, fine, ground arith)
          | inr failed ↦ elim (Bool-cases (is_permanent err')) [
            | inl permanent ↦ absurd (ground (arith, sent))
            | inr transient ↦
                let rest = retry client handler id topic msg left (attempt + 1) err' w₂ in
                let (w', fine, same) : LastRun rest.world =
                  retry-Done left (attempt + 1) err' w₂ (ground arith) (ground arith) in
                (w', fine, ground arith)
          ]
        ]
      ]

  handled_or_retried :
      (left : ℕ) (w : W)
      → let (err, w') = handler msg w in
        Done (
          before (handled err ∷ []) (
            if is_nil err
            then record { success = true; world = w'; calls = [] }
            else if is_permanent err
            then to_dlq client handler id topic msg (message err) "permanent" w'
            else retry client handler id topic msg left 1 err w'))
  handled_or_retried left w done quiet =
      let err = (handler msg w).0 in
      let w₁ = (handler msg w).1 in
      let sent = to_dlq_lem client handler id topic msg (message err) "permanent" w₁ in
      elim (Bool-cases (is_nil err)) [
        | inl fine ↦ (w, fine, ground arith)
        | inr failed ↦ elim (Bool-cases (is_permanent err)) [
          | inl permanent ↦ absurd (ground (arith, sent))
          | inr transient ↦
              let rest = retry client handler id topic msg left 1 err w₁ in
              let (w', fine, same) : LastRun rest.world =
                retry-Done left 1 err w₁ (ground arith) (ground arith) in
              (w', fine, ground arith)
        ]
      ]

  -- A message that is reported as done without a dead letter leaves the world as a run of the handler
  -- that returned no error left it.
  pub handle_with_retry_done :
      (w : W)
      → (handle_with_retry client handler id topic msg w).success ≡ true
      → tally is_dlq (handle_with_retry client handler id topic msg w).calls ≡ 0
      → LastRun (handle_with_retry client handler id topic msg w).world
  unfolding handle_with_retry
  handle_with_retry_done w = handled_or_retried max_retries w
