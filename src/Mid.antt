-- ===== src/Mid.antt =====
-- internal/mid: the middleware.
pub mod Access
pub mod Errors
pub mod Counting
