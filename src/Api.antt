-- ===== src/Api.antt =====
-- app/api: the HTTP server's request limiter.
pub mod Limiter
pub mod Params
pub mod Service
pub mod Server
mod Examples
