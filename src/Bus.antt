-- ===== src/Bus.antt =====
-- internal/domains/user/bus: the user domain.
pub mod Roles
pub mod Order
pub mod Models
pub mod Store
pub mod Contract
pub mod Services
pub mod Users
