-- ===== src/Scoring.antt =====
-- The rubric and the stored scores (rubric.py, candidate_profile.py,
-- webapp/backend/sources/scoring.py).
pub mod Vector
pub mod Profile
pub mod Texts
pub mod Reading
pub mod Rules
pub mod Rubric
pub mod Odds
pub mod Validate
pub mod Balance
pub mod Replay
pub mod Limits
pub mod Accepted
pub mod Persist
pub mod Fates
pub mod Replaced
pub mod Marks
pub mod Wrote
pub mod Written
pub mod Tests
