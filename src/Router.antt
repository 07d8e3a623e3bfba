-- ===== src/Router.antt =====
-- src/sloserve/router
pub mod Models
pub mod Policies
pub mod Clipping
pub mod Controller
pub mod Admission
