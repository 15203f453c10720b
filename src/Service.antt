-- ===== src/Service.antt =====
-- cmd/services/main.go: the gin engine with its middleware and routes, and the life of the process.
pub mod Gin
pub mod Config
pub mod Run
pub mod Stack
pub mod Machine
