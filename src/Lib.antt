-- ===== src/Lib.antt =====
-- Verification of the energy plant monitoring service (Go).
--
-- The program consumes events of energy plants from Kafka, validates and stores them, keeps the
-- current status of each plant, raises alerts through Telegram, aggregates statistics by the hour
-- and sends them to a webhook, and serves stored events page by page.
--
-- How the parts interact: the consumer of internal/api/kafka_service.go hands each message to
-- HandleMessage (internal/api/intake_handler.go), which decodes it and calls ProcessEvent
-- (internal/domain/services/event_ingestion_service.go). Its error, permanent or transient
-- (internal/domain/errors/errors.go), decides between the retries and the dead letter queue.
-- ProcessEvent asks the plant repository whether the plant exists, gives the event to the dual
-- writer (dual_event_writer.go), the status to plant_status_repo.go and the data to the alert rules
-- (alert_evaluation_service.go), which notify through telegram/notifier.go. The coordinator
-- (analytics_coordinator.go) works on the queue of webhooks that analytics_worker_repo.go keeps.
--
-- Files, and what they model:
--   Base              shared names: tests on numbers, lists measured by native numbers, sorting
--   Errors            errors.go: PermanentError, TransientError, IsPermanent, IsTransient
--   Json              decoded JSON values, and float64 as bit patterns with its order
--   Entities          internal/domain/entities
--   Kafka             sendToDLQWithCtx, SendToDLQ, commitOffset, handleWithRetry
--   Kafka/Service     RegisterHandler, ConsumeEvents, IsConsumerHealthy, StopConsuming
--   Kafka/Adapter     SendEvent and the calls of kafka/adapter.go
--   Ingestion         Deps (what is injected), Monad (effects and errors), Validate, Store, Process
--   Writer/Pipeline   one channel of the writer with its workers, savers and Stop
--   Writer/Whole      the constructor, both pipelines together and metricsReporter
--   Writer/Save       SaveEvent, SaveEventAsync, SaveEventAsyncWithRaw, handleSpillover
--   Writer/Save/Copy  copyOperationalBatch, copyAnalyticalBatch
--   System            the service that NewContainer puts together, on one world, and its delivery;
--                     Redelivered: one message saved twice; Webhooks: the webhook client and the
--                     receiver over a network
--   Analytics         Queue: UpdateWebhookStatus, GetPendingWebhooks; Coordinator: doAggregation,
--                     doDispatch; Coordinator/Loops: runAggregator, runDispatcher and the reporter;
--                     Coordinator/Whole: the constructor, Start, and the loops until Stop;
--                     Stats: RecalculateDirtyBuckets, GetHourlyStats, the tables over time, and the
--                     cycles of the dispatcher on them;
--                     Locks: tryAdvisoryLock and releaseAdvisoryLock of several replicas
--   Alerts            evaluateCondition, EvaluateEvent, the fallback rules; Reload: Start and Stop
--   Pagination        pagination.go; FindAll, FindByEventType of event_operational_repo.go
--   Telegram          enqueue, the worker and Stop of the notifier, escapeHTML; Messages: the texts,
--                     the request to the API and maskToken
--   Webhook           SendPayload and doSend of webhook.go
--   Repositories      Models: the mappers of models.go; Plants: Exists with its cache and
--                     plant_status_repo.go; Analytical: event_analytical_repo.go; Examples:
--                     example_repo.go
--   Rest              RateLimit: ratelimit.go; TestIntake: test_handlers.go; Events:
--                     event_handlers.go; Statuses: plant_status_handlers.go; Examples: handlers.go;
--                     Router: router.go and middleware.go
--   Receiver          WebhookStore, the handlers and the routes of cmd/webhook-receiver/main.go
--   Server            Cors and Health: main.go, Ping and Shutdown; Settings: OnSetConfig; Database:
--                     postgres.go; Start: main, NewContainer, the Kafka factories
--   Tracing           the correlation id of tracing.go in a context
--   Tests             instances of the theorems at concrete inputs
-- The children of a module hold its theorems.
--
-- State is passed explicitly. The outside world, databases, brokers, clocks, is a type parameter
-- that the injected operations transform; what the code did is a list of calls or effects beside
-- the result. Concurrent code is a list of atomic actions, chosen freely, so that a theorem about
-- every list is one about every interleaving. Writer/Save runs a save as one goroutine does with no
-- other in between; System gives the events to the pipelines of Writer/Whole instead, whose other
-- goroutines act between any two effects of a handler. The consumer's endless loop runs over a list of what
-- each round meets, and the walk through pages over a number of pages; one more than there are rows
-- is shown to be enough; the search for the project root has one round for each name of the path and
-- one more. The handlers of a consumer do not change while it runs.
--
-- Numbers: identifiers, times and float64 are natural numbers (the bytes, nanoseconds, the bit
-- pattern). The backoff keeps the wrap-around of 64-bit integers; counters and offsets are small
-- and have no bound in the model.
--
-- Parameters, with what the proofs use of them as named hypotheses: encoding/json, gjson, fmt and
-- the validator, the UUID, hash and base64 packages, net/http, the circuit breaker, gorm, the Kafka
-- client, the LRU cache, goose, the answers of PostgreSQL. Not modelled: log lines, gin itself, the
-- metrics that Prometheus keeps, what the webhook receiver prints on its console, the
-- Atlas loader, and the generated documentation of the API.
pub mod Base
pub mod Errors
pub mod Json
pub mod Entities
pub mod Kafka
pub mod Writer
pub mod Alerts
pub mod Pagination
pub mod Ingestion
pub mod Analytics
pub mod Repositories
pub mod Receiver
pub mod System
pub mod Server
pub mod Webhook
pub mod Rest
pub mod Tracing
pub mod Telegram
pub mod Tests
