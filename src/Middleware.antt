-- ===== src/Middleware.antt =====
-- src/middleware: the layers around the routes.
pub mod RateLimit
pub mod FeatureFlag
