-- ===== src/Contract.antt =====
-- The value types that adapters and the store share (webapp/backend/sources/contract.py).
pub mod Text
pub mod Posting
pub mod Spaces
pub mod Dates
pub mod Normal
pub mod Wire
pub mod Roundtrip
pub mod Checkpoint
pub mod Resumption
mod Tests
