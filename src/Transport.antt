-- ===== src/Transport.antt =====
-- The chunked model transport of src/quinkgl/network/gossip_community.py.
pub mod IndexSet
pub mod Words
pub mod Ranges
pub mod Limits
pub mod Buffer
pub mod Host
pub mod Signing
pub mod Bucket
pub mod State
pub mod Replies
pub mod Admission
pub mod Receive
pub mod Acks
pub mod Requests
pub mod Sender
pub mod Upkeep
