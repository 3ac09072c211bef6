-- ===== src/Embedded.antt =====
-- The embedded operations pack: src/network_agent_rag/packs/embeddedops/.
pub mod Models
pub mod Debug
pub mod Simulator
pub mod Loop
pub mod Mcu
pub mod Tests
