-- ===== src/Graph.antt =====
-- The scoring graph of a run (webapp/backend/sources/graph.py).
pub mod Canonical
pub mod Merged
mod Tests
