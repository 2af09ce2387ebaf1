-- ===== src/Kafka/Retry.antt =====
-- handleWithRetry of internal/api/kafka_service.go: how often the handler runs, which waits lie
-- between, and what becomes of the message.
pub mod Done
use Prim.Native.String.{◌++◌ as text_append}
use energy_plant_monitoring.Base.{
  ℕ, zero, suc, ◌+◌, ◌*◌, ◌≤◌, String, Bool, true, false, not, List, [], ◌∷◌, arith, ◌≡◌, tally,
  length, if◌then◌else◌,
}
use energy_plant_monitoring.Errors.{Error, nil, is_nil, is_permanent, message}
use energy_plant_monitoring.Kafka.{
  Bytes, Client, Handler, Call, handled, waited, marshal_failed, produced, Outcome,
  send_to_dlq_with_ctx, retry, to_dlq, handle_with_retry, max_retries,
}

-- runs of the handler
abbrev is_handled : Call → Bool
is_handled (handled _) = true
is_handled _ = false

-- attempts to hand the message to the dead letter queue, those that fail to marshal included
abbrev pub is_dlq : Call → Bool
is_dlq marshal_failed = true
is_dlq (produced _ _ _) = true
is_dlq _ = false

-- the lengths of the backoffs, in seconds
abbrev pub waits : List Call → List ℕ
waits [] = []
waits (waited d _ ∷ cs) = d ∷ waits cs
waits (_ ∷ cs) = waits cs

-- the first `left` squares from `attempt` on
abbrev squares : ℕ → ℕ → List ℕ
squares zero attempt = []
squares (suc left) attempt = attempt * attempt ∷ squares left (attempt + 1)

-- how the trace of a message ends
abbrev last_handled : Error → List Call → Error
last_handled e [] = e
last_handled e (handled e' ∷ cs) = last_handled e' cs
last_handled e (_ ∷ cs) = last_handled e cs

abbrev pub cancelled : List Call → Bool
cancelled [] = false
cancelled (waited _ false ∷ cs) = true
cancelled (_ ∷ cs) = cancelled cs

abbrev count_cancelled : List Call → ℕ
count_cancelled cs = if cancelled cs then 1 else 0

module _ {W : Type 0} (client : Client W) (handler : Handler W) (id topic : String)
    (msg : Bytes) where
  to_dlq_lem :
      (reason metric : String) (w : W)
      → let o = to_dlq client handler id topic msg reason metric w in
        (o.success ≡ true)
        × (tally is_handled o.calls ≡ 0)
        × (tally is_dlq o.calls ≡ 1)
        × (waits o.calls ≡ [])
        × (cancelled o.calls ≡ false)
        × ((e : Error) → last_handled e o.calls ≡ e)
  unfolding to_dlq
  to_dlq_lem reason metric w = ground arith

  -- one attempt of the loop: what it adds to the trace of the rest
  record Retried (left attempt : ℕ) (err : Error) (o : Outcome W) : Type 0 where
    few : tally is_handled o.calls ≤ left
    spaced : waits o.calls ≡ squares (length (waits o.calls)) attempt
    counted : length (waits o.calls) ≡ tally is_handled o.calls + count_cancelled o.calls
    decided : o.success ≡ not (cancelled o.calls)
    letters :
        tally is_dlq o.calls
        ≡ (if cancelled o.calls then 0 else if is_nil (last_handled err o.calls) then 0 else 1)

  retry-Retried :
      (left attempt : ℕ) (err : Error) (w : W)
      → is_nil err ≡ false
      → Retried left attempt err (retry client handler id topic msg left attempt err w)
  unfolding retry
  retry-Retried zero attempt err w h =
      let (sent, zero_runs, one_letter, no_waits, kept, last) =
        to_dlq_lem (text_append "max retries exhausted: " (message err)) "max_retries" w in
      ground (arith, last err)
  retry-Retried (suc left) attempt err w h =
      let w₁ = (client.wait (attempt * attempt) w).1 in
      let err' = (handler msg w₁).0 in
      let w₂ = (handler msg w₁).1 in
      let sent = to_dlq_lem (message err') "permanent" w₂ in
      ground (arith, sent, sent.5 err', retry-Retried left (attempt + 1) err' w₂)

  pub record IsDisposed (o : Outcome W) : Type 0 where
    pub ran : 1 ≤ tally is_handled o.calls
    pub few : tally is_handled o.calls ≤ max_retries + 1
    pub spaced : waits o.calls ≡ squares (length (waits o.calls)) 1
    pub counted : length (waits o.calls) + 1 ≡ tally is_handled o.calls + count_cancelled o.calls
    pub decided : o.success ≡ not (cancelled o.calls)
    pub letters :
        tally is_dlq o.calls
        ≡ (if cancelled o.calls then 0 else if is_nil (last_handled nil o.calls) then 0 else 1)

  -- Whatever the handler, the client and the cancellation do: the handler runs between one and
  -- `max_retries` + 1 times; the waits between the runs are 1, 4, 9 seconds, a prefix of these; the
  -- message is reported as done exactly when no wait was cancelled; and a dead letter is attempted
  -- once if no wait was cancelled and the last run failed, and otherwise never.
  pub handle_with_retry-IsDisposed :
      (w : W) → IsDisposed (handle_with_retry client handler id topic msg w)
  unfolding handle_with_retry
  handle_with_retry-IsDisposed w =
      let err = (handler msg w).0 in
      let w₁ = (handler msg w).1 in
      let sent = to_dlq_lem (message err) "permanent" w₁ in
      ground (arith, sent, sent.5 err, retry-Retried max_retries 1 err w₁)

  -- A permanent error is never retried: the message goes to the dead letter queue at once, after one
  -- run of the handler, and is reported as done.
  handle_with_retry_permanent :
      (w : W)
      → is_permanent (handler msg w).0 ≡ true
      → handle_with_retry client handler id topic msg w ≡ (
          let (err, w₁) = handler msg w in
          let (w₂, calls) = send_to_dlq_with_ctx client id topic msg (message err) "permanent" w₁ in
          record { success = true; world = w₂; calls = handled err ∷ calls })
  unfolding handle_with_retry to_dlq is_permanent
  handle_with_retry_permanent w h = ground arith
