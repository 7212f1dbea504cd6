-- ===== src/MutationScore.antt =====
-- soundgate/scripts/mutation_score.py: the mutants of the gate and the harnesses that catch them.
pub mod Text
pub mod Run
pub mod Verdict
