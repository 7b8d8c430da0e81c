-- ===== src/Client.antt =====
-- The client manager, src/client.rs.
pub mod Types
pub mod Union
pub mod Effects
pub mod Calls
pub mod Joined
pub mod Ips
pub mod Lookup
pub mod View
pub mod Manager
pub mod Slab
