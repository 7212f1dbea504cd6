-- ===== src/Probes.antt =====
-- probes and probes-temporal: the probes of agent frameworks. What a framework logs in each phase of a probe,
-- and what its caller sees, is data.
pub mod Harness
pub mod LangGraph
pub mod Msaf
pub mod OpenaiAgents
pub mod LlamaIndex
pub mod CrewAi
pub mod Temporal
pub mod Gated
