-- ===== src/Analytics.antt =====
-- internal/infrastructure/adapters/repositories/analytics_worker_repo.go and
-- analytics_coordinator.go: the queue of webhooks and the coordinator that dispatches it.
pub mod Queue
pub mod Coordinator
pub mod Stats
pub mod Locks
