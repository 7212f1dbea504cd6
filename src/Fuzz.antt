-- ===== src/Fuzz.antt =====
-- soundgate/scripts/fuzz_boundary.py: malformed and hostile input at the gate's port, with oracles.
pub mod Socket
pub mod Campaign
pub mod Counting
pub mod Semantic
pub mod Canaries
pub mod Main
pub mod Noise
pub mod Passes
