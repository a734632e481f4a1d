-- ===== src/Schedule/SyncReceipt/Tests.antt =====
-- Instances of the theorems on Sync receipt.
use esp_ptp.Base.{true}
use esp_ptp.Base.Int.{pos}
use esp_ptp.Schedule.SyncReceipt.{Receipt}

-- A Sync received at 1 s counts for 3 s.
abbrev received : Receipt
received = record { received_us = pos 1000000; interval_us = pos 3000000; armed = true }
