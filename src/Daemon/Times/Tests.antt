-- ===== src/Daemon/Times/Tests.antt =====
-- Two times five seconds apart.
use esp_ptp.Base.{◌^◌, true, false, ◌≡◌, ◌⊎◌, arith}
use esp_ptp.Base.Int.{pos, neg, ◌+ℤ◌, ◌-ℤ◌, ◌≤ℤ◌, ◌<ℤ◌, int64_max}
use esp_ptp.Peer.Wire.{Timespec}
use esp_ptp.Daemon.Times.{timespec_delta_ns, timespec_to_ns, timespec_delta_ns_result}

abbrev later : Timespec
later = record { tv_sec = pos 7; tv_nsec = pos 5 }

abbrev earlier : Timespec
earlier = record { tv_sec = pos 2; tv_nsec = pos 999999999 }

timespec_delta_ns_result_example :
    let delta = timespec_delta_ns false later earlier in
    let is_near =
      (later.tv_sec <ℤ earlier.tv_sec +ℤ pos 9223372036)
      × (earlier.tv_sec <ℤ later.tv_sec +ℤ pos 9223372036) in
    is_near
      × (delta ≡ timespec_to_ns later -ℤ timespec_to_ns earlier)
      × (neg (2 ^ 63) ≤ℤ delta)
      × (delta ≤ℤ int64_max)
    ⊎ (false ≡ true) × (delta ≡ int64_max) × (earlier.tv_sec +ℤ pos 9223372036 ≤ℤ later.tv_sec)
    ⊎ (false ≡ true) × (delta ≡ neg (2 ^ 63)) × (later.tv_sec +ℤ pos 9223372036 ≤ℤ earlier.tv_sec)
    ⊎ (false ≡ false) × ¬ is_near
timespec_delta_ns_result_example =
    timespec_delta_ns_result false later earlier
      (omega arith, omega arith, omega arith, omega arith)
      (omega arith, omega arith, omega arith, omega arith)
