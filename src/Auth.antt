-- ===== src/Auth.antt =====
-- The authentication hosts of src/auth.
pub mod RateLimiter
pub mod ServerHost
pub mod RemoteServer
