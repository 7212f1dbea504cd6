-- ===== src/Lint.antt =====
-- scripts/mediation_lint.py: which calls of effects stand outside the sanctioned wrapper.
pub mod Visit
pub mod Sound
pub mod Fixture
pub mod Flags
