-- ===== src/Web.antt =====
-- The HTTP framework (web).
pub mod Router
pub mod Context
pub mod Server
pub mod Middlewares
pub mod Session
pub mod Files
mod Tests
