-- ===== src/Trust.antt =====
-- Which keys a node trusts: src/quinkgl/network/tofu.py.
pub mod Tofu
