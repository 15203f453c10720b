-- ===== src/Userdb.antt =====
-- internal/domains/user/store/userdb: the user store over a PostgreSQL database.
pub mod Models
pub mod Order
pub mod Filter
pub mod Database
pub mod Store
pub mod Memory
pub mod Postgres
