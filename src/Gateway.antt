-- ===== src/Gateway.antt =====
-- The gateway (apps/gateway): key validation, rate limits, routing and the reverse proxy.
pub mod Routing
pub mod Proxy
pub mod Auth
pub mod RateLimit
pub mod Whole
