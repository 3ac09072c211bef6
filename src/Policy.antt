-- ===== src/Policy.antt =====
-- Deterministic execution policies: src/network_agent_rag/policy/.
pub mod Models
pub mod Registry
pub mod Engine
pub mod Rules
pub mod Evaluator
pub mod Tests
