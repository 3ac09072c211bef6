-- ===== src/Agents.antt =====
-- .../packs/networkops/agents/multi_agent/: the workflow in which a supervisor hands an incident to
-- specialist agents, one after the other.
pub mod Plan
pub mod State
pub mod Specialists
pub mod Graph
pub mod Tests
