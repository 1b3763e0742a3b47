-- ===== src/Records.antt =====
-- The writing of a batch of records (webapp/backend/sources/runstore.py).
pub mod Tables
pub mod Identity
pub mod Content
pub mod Growth
pub mod Decides
pub mod Replay
pub mod Members
pub mod Deliveries
pub mod Counts
pub mod Batches
pub mod Repeats
pub mod Unique
pub mod States
mod Tests
