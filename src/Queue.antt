-- ===== src/Queue.antt =====
-- The Today queue (webapp/backend/ranking.py): definitions in the first five modules, from a
-- job's fields to the finished queue, and a module for each family of theorems.
pub mod Job
pub mod Freshness
pub mod Eligibility
pub mod Lanes
pub mod Compose
pub mod Loop
pub mod Counts
pub mod Admitted
pub mod Accounting
pub mod Caps
pub mod Justify
pub mod Invariance
mod Tests
