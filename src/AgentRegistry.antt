-- ===== src/AgentRegistry.antt =====
-- internal/agentregistry: the registry of agents.
pub mod Agents
pub mod Lookup
mod Examples
