-- ===== src/Runs.antt =====
-- A run of the scheduler (webapp/backend/sources/run_profiles.py, scheduler.py and transport.py).
pub mod Target
pub mod Profile
pub mod Dueness
pub mod Loop
pub mod Retries
pub mod Resume
pub mod Execute
pub mod Report
pub mod Preflight
pub mod Skips
pub mod Lookup
pub mod Limits
pub mod Politeness
pub mod Pacing
pub mod Spacing
pub mod Gates
pub mod Holding
pub mod Phases
pub mod Progress
mod Tests
