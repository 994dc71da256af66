-- ===== src/Store.antt =====
-- The storage of checkpoints in src/quinkgl/storage/model_store.py.
pub mod Names
pub mod Values
pub mod Checkpoint
pub mod State
pub mod Saving
pub mod Loading
pub mod Listing
pub mod Deletion
pub mod Eviction
pub mod Limit
pub mod Retention
pub mod Making
pub mod Writing
pub mod Persistence
