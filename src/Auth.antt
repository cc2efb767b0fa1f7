-- ===== src/Auth.antt =====
-- src/auth: agents, mandates, provenance and the replay cache.
pub mod ReplayCache
pub mod Agent
pub mod Provider
pub mod Provenance
