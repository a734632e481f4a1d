-- ===== src/Schedule/Capable/Tests.antt =====
-- Instances of the theorems on the schedule of gPTP-capable messages.
use esp_ptp.Base.{ℕ, true, ◌≡◌, refl}
use esp_ptp.Base.Int.{pos}
use esp_ptp.Schedule.Interval.{interval_period, interval_us}
use esp_ptp.Schedule.Capable.{Schedule}

-- One message a second, the next due at 5 s.
abbrev running : Schedule
running = record {
  interval = record { log_interval = pos 0; slowdown_remaining = 0; old_interval_us = pos 0 };
  next_us = pos 5000000;
  queued_us = pos 4000000;
  serial = 3;
  pending = 0;
  sequence = 8;
  advertised_interval = pos 0;
  active = true;
}

abbrev sending : Schedule
sending = record running { pending = 3 }

abbrev sent_token : ℕ
sent_token = 3

abbrev next_token : ℕ
next_token = 4

running-period : interval_period running.interval ≡ pos 1000000
unfolding interval_period interval_us
running-period = refl
