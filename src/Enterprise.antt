-- ===== src/Enterprise.antt =====
-- The approval-gated workflow of repair plans:
-- src/network_agent_rag/packs/networkops/agents/enterprise/.
pub mod Approval
pub mod Execution
pub mod Workflow
pub mod Actions
pub mod Nodes
pub mod Tests
