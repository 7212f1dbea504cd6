-- ===== src/Gate.antt =====
-- soundgate/src/lib.rs: the gate's state and its operations.
pub mod Defs
pub mod Phase
pub mod Refines
pub mod Valid
pub mod Recovery
