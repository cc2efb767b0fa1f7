-- ===== src/Protocol.antt =====
-- src/protocol: the wire formats and the pure checks on them.
pub mod Decimal
pub mod X402Types
pub mod X402Verify
pub mod UrlGuard
