-- ===== src/Store.antt =====
-- The run store (webapp/backend/sources/runstore.py): the tables `source_runs`, `pipeline_runs`,
-- `postings`, `posting_aliases` and `run_postings` as lists of rows, and the functions over them.
pub mod Rows
pub mod Attempts
pub mod Recovery
pub mod Queries
pub mod History
pub mod Numbering
pub mod Unattempted
pub mod Reconcile
pub mod Presence
pub mod Candidates
pub mod Pass
pub mod Absence
mod Tests
