-- ===== src/Examples.antt =====
-- The theorems applied to concrete gates, clients, runs and records.
pub mod Gates
pub mod Clients
pub mod Soaks
pub mod Experiments
pub mod Hostile
pub mod Tools
pub mod Surveys
pub mod Probes
pub mod Logs
