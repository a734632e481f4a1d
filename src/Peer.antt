-- ===== src/Peer.antt =====
-- The peers of a port: the exchange that measures the delay to one, and what is known of its gPTP
-- capability.
pub mod Wire
pub mod Exchange
pub mod CapableReceive
pub mod Capability
pub mod WiredCapable
pub mod Rate
