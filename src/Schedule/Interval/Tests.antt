-- ===== src/Schedule/Interval/Tests.antt =====
-- Runs of the interval at concrete requests, and instances of its theorems.
use esp_ptp.Base.{if◌then◌else◌, ltb, ◌≡◌, refl, inl, inr, arith}
use esp_ptp.Base.Int.{pos}
use esp_ptp.Schedule.Interval.{
  Interval, interval_us, interval_period, supported, accept, interval_request,
}
use esp_ptp.Schedule.Interval.Laws.{IsValid, sent_times, slowdown_after_nine}

-- One message a second.
abbrev every_second : Interval
every_second = record { log_interval = pos 0; slowdown_remaining = 0; old_interval_us = pos 0 }

every_second-IsValid : IsValid every_second
every_second-IsValid = record {
  rate = inr (omega arith, omega arith);
  few = omega arith;
  slower = inl refl;
}

-- A request for one message in four seconds starts a slowdown of nine messages.
slower :
    (interval_request every_second (pos 2)).0
    ≡ record { log_interval = pos 2; slowdown_remaining = 9; old_interval_us = pos 1000000 }
unfolding interval_request accept supported interval_period interval_us
slower = refl

slowdown_after_nine_example :
    interval_period (sent_times 9 (interval_request every_second (pos 2)).0)
    ≡ (if ltb 9 9 then interval_period every_second else interval_us (pos 2))
unfolding interval_period interval_us
slowdown_after_nine_example =
    slowdown_after_nine every_second (pos 2) 9 (omega arith, omega arith) (ground arith)
      (omega arith) (omega arith)
