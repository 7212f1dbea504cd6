-- ===== src/Tau.antt =====
-- soundgate/e2e: the experiments on tau-bench.
pub mod Tools
pub mod Meter
pub mod Episode
