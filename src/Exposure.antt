-- ===== src/Exposure.antt =====
-- exposure/src/exposure: how often an agent's model emits a consequential call together with others.
pub mod Tasks
pub mod Catalog
pub mod Runner
pub mod Resume
pub mod Analysis
pub mod Mock
pub mod Tables
