-- ===== src/Message.antt =====
-- The gPTP messages on the wire: lengths, normalisation, the path trace of an Announce, and Signaling.
pub mod Bounds
pub mod Normalize
pub mod PathTrace
pub mod Signaling
