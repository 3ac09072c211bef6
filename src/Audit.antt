-- ===== src/Audit.antt =====
-- src/network_agent_rag/audit/: the append-only log of audit events, and the redaction of their
-- details.
pub mod Redaction
pub mod Store
pub mod Tests
