-- ===== src/Ingest.antt =====
-- internal/ingest: the raw fields of a log entry, the tailer's parsers and the normaliser.
pub mod Value
pub mod Tail
pub mod Normalize
pub mod Simulator
