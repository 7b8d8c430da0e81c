-- ===== src/Capture.antt =====
-- `InputCapture`, input-capture/src/lib.rs: the barriers, the event stream and the pressed keys.
pub mod Run
pub mod Barriers
pub mod Stream
pub mod FanOut
pub mod Succeeds
pub mod Order
pub mod Queue
pub mod Operations
pub mod Invariant
