-- ===== src/Governance.antt =====
-- Governance: src/network_agent_rag/governance/.
pub mod Risk
pub mod Models
pub mod Authorization
pub mod Events
pub mod Service
pub mod Tests
