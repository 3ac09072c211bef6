-- ===== src/Auth.antt =====
-- Authentication and authorization: src/network_agent_rag/auth/.
pub mod Models
pub mod Rbac
pub mod Token
pub mod Identity
pub mod Requests
pub mod Tests
