-- ===== src/Services.antt =====
-- src/services: the clients, background tasks and tables behind the routes.
pub mod CertPin
pub mod Settlements
pub mod Reconciler
pub mod PoolBudget
pub mod Supervisor
pub mod Relayer
pub mod Facilitator
pub mod Capabilities
