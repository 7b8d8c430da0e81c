-- ===== src/Session.antt =====
-- The capture task, src/capture.rs: `CaptureTask`, what it does at each branch of its `select!`, and
-- its sessions.
pub mod Outcome
pub mod Types
pub mod Outside
pub mod Release
pub mod Released
pub mod Events
pub mod Received
pub mod Watchdog
pub mod Steps
pub mod Held
pub mod Ghost
pub mod Kept
pub mod Quiet
pub mod Known
pub mod Barriers
pub mod NoPanic
pub mod Queued
pub mod Timeout
pub mod Lifetime
pub mod Runs
pub mod Restart
