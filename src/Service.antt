-- ===== src/Service.antt =====
-- The client handlers of `Service`, src/service.rs, and their effect on the barriers.
pub mod Handlers
pub mod Barriers
pub mod Activation
pub mod Updates
pub mod Serving
pub mod Requests
pub mod Start
pub mod Monitors
pub mod Detach
pub mod Exclusive
pub mod Sides
pub mod Armed
