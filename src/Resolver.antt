-- ===== src/Resolver.antt =====
-- Cross-source resolution (webapp/backend/sources/resolver.py).
pub mod Names
pub mod Local
pub mod Index
pub mod Sets
pub mod Survivor
pub mod Redirects
pub mod Merging
pub mod Sound
mod Tests
