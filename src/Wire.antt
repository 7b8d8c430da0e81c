-- ===== src/Wire.antt =====
-- The wire protocol: crate lan-mouse-proto (src/lib.rs and src/codec.rs).
pub mod Outcome
pub mod Bytes
pub mod Utf8
pub mod Types
pub mod Reading
pub mod Fields
pub mod Bodies
pub mod EventTypes
pub mod Fixed
pub mod Dispatch
