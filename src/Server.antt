-- ===== src/Server.antt =====
-- internal/server: the rate limiter, the middleware and the routing of requests.
pub mod RateLimit
pub mod Router
pub mod Mirror
pub mod ClientIp
pub mod Middleware
