-- ===== src/Ingest.antt =====
-- src/ingest: what feeds the records of a source to the sink.
pub mod Backoff
pub mod Rabbit
pub mod DirWatcher
pub mod File
pub mod Lifecycle
