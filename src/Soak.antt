-- ===== src/Soak.antt =====
-- soundgate/scripts/soak_wal.py: the soak test of the durable gate.
pub mod Shared
pub mod Worker
pub mod Census
pub mod Final
pub mod Run
pub mod Segments
pub mod Whole
