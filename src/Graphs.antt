-- ===== src/Graphs.antt =====
-- randgraph/gen.py: random trees of nodes with a gate, and where its effects stand to the gate.
pub mod Generate
pub mod Depths
pub mod Waves
pub mod Relations
