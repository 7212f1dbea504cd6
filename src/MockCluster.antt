-- ===== src/MockCluster.antt =====
-- soundgate/scripts/mock_cluster.py: the mock of a replicated gate that the fault harness tests
-- itself against.
pub mod Store
pub mod Once
pub mod Nodes
