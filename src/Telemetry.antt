-- ===== src/Telemetry.antt =====
-- What observes the peers of a swarm: src/quinkgl/telemetry.
pub mod Tokens
