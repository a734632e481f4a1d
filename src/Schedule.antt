-- ===== src/Schedule.antt =====
-- Message schedules: the intervals that peers ask for, when the next message is due, and when the last
-- one received expires.
pub mod Timing
pub mod Interval
pub mod Capable
pub mod Announce
pub mod SyncInterval
pub mod SyncReceipt
