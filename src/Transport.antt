-- ===== src/Transport.antt =====
-- The messages on the streams of a connection, src/quic_transport/protocol.rs, streams.rs and
-- session.rs: frames, the handshake, the reader tasks and sending.
pub mod ByteStream
pub mod Frames
pub mod Routing
pub mod Loops
pub mod Reading
pub mod Delivery
pub mod Ends
pub mod FixedFrames
pub mod Small
pub mod FixedReading
pub mod VariablePanic
pub mod Hello
pub mod Sides
pub mod Magic
pub mod Handshake
pub mod Sending
pub mod Delivers
pub mod Input
pub mod Routed
pub mod SendInput
