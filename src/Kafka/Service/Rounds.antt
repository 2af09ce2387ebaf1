-- ===== src/Kafka/Service/Rounds.antt =====
-- The rounds of ConsumeEvents (internal/api/kafka_service.go): the count of connection errors and the
-- health flag from one round to the next.
use energy_plant_monitoring.Base.{
  ◌+◌, ◌≤◌, ◌<◌, String, Bool, true, false, ◌≡◌, refl, ap, ◌∙◌, ◌⊎◌, Option, List, [], ◌∷◌, arith,
  tally, Bool-cases, inl, inr, ◌++◌, leb, if◌then◌else◌,
}
use energy_plant_monitoring.Kafka.{Client, Handler, KafkaMessage, max_connection_errors}
use energy_plant_monitoring.Kafka.Service.{
  timed_out, transport, all_brokers_down, network_exception, other_code, got, kafka_error,
  other_error, Poll, stop_closed, read, Consumer, Broker, deliver, read_failed, connection_error,
  find_handler, round, loop,
}

abbrev pub is_connection_error : Poll → Bool
is_connection_error (read (kafka_error transport)) = true
is_connection_error (read (kafka_error all_brokers_down)) = true
is_connection_error (read (kafka_error network_exception)) = true
is_connection_error _ = false

abbrev pub is_stop : Poll → Bool
is_stop stop_closed = true
is_stop _ = false

abbrev pub is_message : Poll → Bool
is_message (read (got _)) = true
is_message _ = false

module _ {W : Type 0} (client : Client W) (broker : Broker W)
    (handlers : List (String × Handler W)) where
  -- between two rounds
  pub record Inv (c : Consumer W) : Type 0 where
    pub agree : c.consumer_healthy ≡ c.running
    pub few : c.running ≡ true → c.connection_err_count ≤ max_connection_errors

  deliver_keeps :
      (msg : KafkaMessage) (h : Option (Handler W)) (c : Consumer W)
      → let d = deliver client broker handlers msg h c in
        (d.consumer_healthy ≡ c.consumer_healthy)
        × (d.running ≡ c.running)
        × (d.connection_err_count ≡ c.connection_err_count)
  unfolding deliver
  deliver_keeps msg h c = ground arith

  round-Inv :
      (c : Consumer W) (p : Poll)
      → Inv c
      → c.running ≡ true
      → Inv (round client broker handlers c p)
  unfolding round read_failed connection_error
  round-Inv c stop_closed inv r = ground arith
  round-Inv c (read (kafka_error code)) inv r = ground arith
  round-Inv c (read other_error) inv r = inv
  round-Inv c (read (got msg)) inv r =
      let kept =
        deliver_keeps msg (find_handler msg.topic handlers)
          (record c { connection_err_count = 0 }) in
      ground (arith, kept)

  pub loop-Inv : (c : Consumer W) (ps : List Poll) → Inv c → Inv (loop client broker handlers c ps)
  unfolding loop
  loop-Inv c [] inv = inv
  loop-Inv c (p ∷ ps) inv = elim (Bool-cases c.running) [
    | inl r ↦ simp r (loop-Inv (round client broker handlers c p) ps (round-Inv c p inv r))
    | inr r ↦ simp r (loop-Inv c ps inv)
  ]

  pub loop_stopped :
      (c : Consumer W) (ps : List Poll) → c.running ≡ false → loop client broker handlers c ps ≡ c
  unfolding loop
  loop_stopped c [] r = refl
  loop_stopped c (p ∷ ps) r = simp r (loop_stopped c ps r)

  -- one round that meets no stop: how the counter and the flag move
  round_counts :
      (c : Consumer W) (p : Poll)
      → is_stop p ≡ false
      → c.running ≡ true
      → c.connection_err_count + tally is_connection_error (p ∷ []) ≤ max_connection_errors
      → let d = round client broker handlers c p in
        (d.running ≡ true)
        × (d.connection_err_count ≤ c.connection_err_count + tally is_connection_error (p ∷ []))
  unfolding round read_failed connection_error
  round_counts c stop_closed s r h = cc
  round_counts c (read (kafka_error timed_out)) s r h = ground arith
  round_counts c (read (kafka_error transport)) s r h = ground arith
  round_counts c (read (kafka_error all_brokers_down)) s r h = ground arith
  round_counts c (read (kafka_error network_exception)) s r h = ground arith
  round_counts c (read (kafka_error other_code)) s r h = ground arith
  round_counts c (read other_error) s r h = ground arith
  round_counts c (read (got msg)) s r h =
      let kept =
        deliver_keeps msg (find_handler msg.topic handlers)
          (record c { connection_err_count = 0 }) in
      ground (arith, kept)

  pub loop_runs :
      (c : Consumer W) (ps : List Poll)
      → c.running ≡ true
      → tally is_stop ps ≡ 0
      → c.connection_err_count + tally is_connection_error ps ≤ max_connection_errors
      → (loop client broker handlers c ps).running ≡ true
  unfolding loop
  loop_runs c [] r s h = r
  loop_runs c (p ∷ ps) r s h =
      let d = round client broker handlers c p in
      let (still, fewer) = round_counts c p (ground arith) r (ground arith) in
      simp r (loop_runs d ps still (ground arith) (ground arith))

  -- one round that reads no message
  round_misses :
      (c : Consumer W) (p : Poll)
      → is_message p ≡ false
      → c.running ≡ true
      → let d = round client broker handlers c p in
        (d.running ≡ false)
        ⊎ (d.connection_err_count ≡ c.connection_err_count + tally is_connection_error (p ∷ []))
  unfolding round read_failed connection_error
  round_misses c stop_closed s r = inl refl
  round_misses c (read (kafka_error code)) s r = ground arith
  round_misses c (read other_error) s r = ground arith
  round_misses c (read (got msg)) s r = cc

  pub loop_dies :
      (c : Consumer W) (ps : List Poll)
      → Inv c
      → tally is_message ps ≡ 0
      → max_connection_errors < c.connection_err_count + tally is_connection_error ps
      → (loop client broker handlers c ps).running ≡ false
  unfolding loop
  loop_dies c [] inv s h = ground arith
  loop_dies c (p ∷ ps) inv s h = elim (Bool-cases c.running) [
    | inr r ↦ simp r (ap (λ (d : Consumer W). d.running) (loop_stopped c ps r) ∙ r)
    | inl r ↦ simp r (elim (round_misses c p (ground arith) r) [
      | inl dead ↦
          ap (λ (d : Consumer W). d.running)
            (loop_stopped (round client broker handlers c p) ps dead)
          ∙ dead
      | inr grown ↦
          loop_dies (round client broker handlers c p) ps (round-Inv c p inv r) (ground arith)
            (ground arith)
    ])
  ]

  pub loop-append :
      (c : Consumer W) (ps qs : List Poll)
      → loop client broker handlers c (ps ++ qs)
        ≡ loop client broker handlers (loop client broker handlers c ps) qs
  unfolding loop
  loop-append c [] qs = refl
  loop-append c (p ∷ ps) qs =
      loop-append (if c.running then round client broker handlers c p else c) ps qs

  pub loop_next :
      (c : Consumer W) (p : Poll) (ps : List Poll)
      → c.running ≡ true
      → loop client broker handlers c (p ∷ ps)
        ≡ loop client broker handlers (round client broker handlers c p) ps
  unfolding loop
  loop_next c p ps r = simp r refl

  message_read :
      (c : Consumer W) (msg : KafkaMessage)
      → c.running ≡ true
      → let d = round client broker handlers c (read (got msg)) in
        (d.running ≡ true) × (d.connection_err_count ≡ 0)
  unfolding round
  message_read c msg r =
      let (_, kept, count) =
        deliver_keeps msg (find_handler msg.topic handlers)
          (record c { connection_err_count = 0 }) in
      (kept ∙ r, count)

  -- a consumer that has just read a message: what follows until the next one decides
  pub loop_decides :
      (c : Consumer W) (msg : KafkaMessage) (qs : List Poll)
      → Inv c
      → c.running ≡ true
      → tally is_message qs ≡ 0
      → tally is_stop qs ≡ 0
      → (loop client broker handlers c (read (got msg) ∷ qs)).running
        ≡ leb (tally is_connection_error qs) max_connection_errors
  loop_decides c msg qs inv r quiet no_stop =
      let d = round client broker handlers c (read (got msg)) in
      let (still, none_yet) = message_read c msg r in
      let inv' : Inv d = round-Inv c (read (got msg)) inv r in
      rw (loop_next c (read (got msg)) qs r)
        (elim (Bool-cases (leb (tally is_connection_error qs) max_connection_errors)) [
          | inl few ↦ rw few (loop_runs d qs still no_stop (ground arith))
          | inr many ↦ rw many (loop_dies d qs inv' quiet (ground arith))
        ])
