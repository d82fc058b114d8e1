-- ===== src/HttpServer.antt =====
-- pkg/httpServer: the HTTP handlers.
pub mod Validate
pub mod Contained
pub mod Routes
pub mod Copied
pub mod Response
pub mod Tokens
pub mod Serve
pub mod Gateway
pub mod Admin
pub mod Metrics
pub mod Logged
