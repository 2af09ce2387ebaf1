-- ===== src/Kafka/Service/Commit.antt =====
-- Offsets are committed after processing, each for its own message (ConsumeEvents, handleWithRetry and commitOffset of
-- internal/api/kafka_service.go).
use Prim.Native.String.{◌++◌ as text_append}
use energy_plant_monitoring.Base.{
  String, Bool, true, false, ◌≡◌, Option, none, some, List, [], ◌∷◌, ◌++◌, if◌then◌else◌, ◌⊎◌, ◌&&◌,
  ◌==◌, str_eq,
}
use energy_plant_monitoring.Errors.{is_nil}
use energy_plant_monitoring.Kafka.{
  Client, Handler, KafkaMessage, Call, handled, waited, marshal_failed, produced, committed,
  retry_attempts_inc, dlq_sends_inc,
}
use energy_plant_monitoring.Kafka.Service.{
  Poll, stop_closed, read, got, kafka_error, other_error, Consumer, Broker, find_handler, loop,
}

-- the topic, the partition and the offset, which are what a commit is about
abbrev same_offset : KafkaMessage → KafkaMessage → Bool
same_offset m n = str_eq m.topic n.topic && (m.partition == n.partition && m.offset == n.offset)

module _ (msg : KafkaMessage) where
  -- Walks the calls made for `msg`. The flag says that it is settled: its last run succeeded, or it
  -- was handed to the dead letter queue. A commit of another offset, or with the flag down, is a
  -- violation, `none`; a commit takes the flag down.
  abbrev pub settle : Bool → List Call → Option Bool
  settle s [] = some s
  settle s (handled err ∷ cs) = settle (is_nil err) cs
  settle s (marshal_failed ∷ cs) = settle true cs
  settle s (produced _ _ _ ∷ cs) = settle true cs
  settle s (committed m _ ∷ cs) =
      let rest = settle false cs in if s && same_offset m msg then rest else none
  settle s (waited _ _ ∷ cs) = settle s cs
  settle s (retry_attempts_inc _ ∷ cs) = settle s cs
  settle s (dlq_sends_inc _ _ ∷ cs) = settle s cs

  abbrev resume : Option Bool → List Call → Option Bool
  resume none cs = none
  resume (some s) cs = settle s cs

-- the messages that the rounds bring
abbrev pub messages : List Poll → List KafkaMessage
messages [] = []
messages (read (got msg) ∷ ps) = msg ∷ messages ps
messages (read (kafka_error _) ∷ ps) = messages ps
messages (read other_error ∷ ps) = messages ps
messages (stop_closed ∷ ps) = messages ps

module _ {W : Type 0} where
  abbrev is_unhandled : List (String × Handler W) → KafkaMessage → Bool
  is_unhandled handlers msg = elim (find_handler msg.topic handlers) [
    | none ↦ true
    | some _ ↦ false
  ]

  -- A message that is not read any more has no calls. For one that is read, each commit is one of its
  -- own offset and comes after the message was settled, or, where its topic has no handler, at once;
  -- there is no second commit without a run or a letter in between, and a message that is settled, or
  -- has no handler, does not stay uncommitted.
  abbrev IsSettled : List (String × Handler W) → KafkaMessage → List Call → Type 0
  IsSettled handlers msg calls =
      (calls ≡ []) ⊎ (settle msg (is_unhandled handlers msg) calls ≡ some false)

  -- the calls are those for the messages, one message after the other
  abbrev pub Settled : List (String × Handler W) → List KafkaMessage → List Call → Type 0
  Settled handlers [] calls = calls ≡ []
  Settled handlers (msg ∷ msgs) calls =
      (mine : List Call) × (rest : List Call) × (calls ≡ mine ++ rest)
      × IsSettled handlers msg mine
      × Settled handlers msgs rest

module _ {W : Type 0} (client : Client W) where
  module _ (broker : Broker W) (handlers : List (String × Handler W)) where
    -- what a round adds to the calls, if it is one for a message
    abbrev Added : Consumer W → Consumer W → KafkaMessage → Type 0
    Added c d msg =
        (mine : List Call) × (d.calls ≡ c.calls ++ mine)
        × (settle msg (is_unhandled handlers msg) mine ≡ some false)

    -- what the rounds add to the calls
    abbrev LoopSettles : Consumer W → List Poll → Type 0
    LoopSettles c ps =
        (new_calls : List Call) × ((loop client broker handlers c ps).calls ≡ c.calls ++ new_calls)
        × Settled handlers (messages ps) new_calls
