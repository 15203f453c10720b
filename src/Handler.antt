-- ===== src/Handler.antt =====
-- internal/domains/user/handler: the HTTP endpoints of the users.
pub mod Models
pub mod Filters
pub mod Binding
pub mod Reply
pub mod Endpoints
pub mod Routes
