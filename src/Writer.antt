-- ===== src/Writer.antt =====
-- internal/infrastructure/adapters/repositories/dual_event_writer.go: the writer of events to the
-- operational and the analytical table, by two independent pipelines of a buffered channel and a
-- pool of batching workers.
pub mod Pipeline
pub mod Save
pub mod Whole
