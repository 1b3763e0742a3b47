-- ===== src/Enrichment.antt =====
-- Which postings of a run get a description fetched (webapp/backend/sources/enrichment.py).
pub mod Prefilter
pub mod Pass
mod Tests
