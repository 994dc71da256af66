-- ===== src/Topology.antt =====
-- The peers that a node knows and picks from: src/quinkgl/topology.
pub mod Sampler
pub mod Cyclon
