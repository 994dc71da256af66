-- ===== src/Gossip.antt =====
-- The gossip loop of a node in src/quinkgl/gossip/.
pub mod Messages
pub mod Aggregator
pub mod Aggregation
pub mod Pending
pub mod Conservation
pub mod Queue
pub mod Interleaving
pub mod Rejections
pub mod Resumption
