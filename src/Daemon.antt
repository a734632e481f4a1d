-- ===== src/Daemon.antt =====
-- The parts of the daemon's ptp.c.
pub mod Rank
pub mod Format
pub mod Times
pub mod LiteTlv
pub mod Injected
pub mod TimeBase
pub mod Snapshot
pub mod Unicast
pub mod Selection
pub mod Servo
pub mod Sync
pub mod Delay
pub mod Profile
pub mod Links
pub mod Samples
