-- ===== src/Routes.antt =====
-- src/routes: what the HTTP handlers decide.
pub mod InvokeX402
pub mod Sse
pub mod Stream
pub mod ManifestRead
pub mod InvokeChecks
pub mod Invoke
pub mod Refunds
pub mod Manifests
pub mod Lifecycle
