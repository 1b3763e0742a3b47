-- ===== src/Writer.antt =====
-- The single writer of a run (webapp/backend/sources/writer.py).
pub mod Commit
pub mod Counters
pub mod Sequences
pub mod Ledger
mod Tests
