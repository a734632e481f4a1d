-- ===== src/Ftm.antt =====
-- Fine Timing Measurement: the session, the share of measurements that succeed, and the counter checks.
pub mod Session
pub mod Success
pub mod Counter
pub mod Probe
