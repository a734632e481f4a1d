-- ===== src/Schedule/Interval/Laws.antt =====
-- The interval of the gPTP-capable messages: its range, and how a slowdown is phased in.
use esp_ptp.Base.{
  ℕ, zero, suc, ◌-◌, ◌≤◌, Bool, true, false, not, ◌&&◌, if◌then◌else◌, ltb, ◌≡◌, refl, ◌≢◌, ◌↔◌,
  ◌⊎◌, arith,
}
use esp_ptp.Base.Int.{ℤ, pos, negsuc, neg, lt_ℤ, le_ℤ, ◌==ℤ◌, ◌≤ℤ◌, ◌<ℤ◌, max_ℤ}
use esp_ptp.Schedule.Interval.{
  Interval, interval_us, interval_period, supported, accept, interval_request, interval_sent,
}
use esp_ptp.Schedule.Timing.{longest_us, pow_bounds}

-- The supported logarithms, -3 to 24.
abbrev pub IsRate : ℤ → Type 0
IsRate l = (neg 3 ≤ℤ l) × (l ≤ℤ pos 24)

interval_us_bounds :
    (l : ℤ) → IsRate l → (pos 125000 ≤ℤ interval_us l) × (interval_us l ≤ℤ longest_us)
unfolding interval_us
interval_us_bounds (pos n) h = ground (arith, pow_bounds n (omega arith))
interval_us_bounds (negsuc zero) h = ground arith
interval_us_bounds (negsuc (suc zero)) h = ground arith
interval_us_bounds (negsuc (suc (suc zero))) h = ground arith
interval_us_bounds (negsuc (suc (suc (suc n)))) h = absurd (omega arith)

interval_us_zero : (l : ℤ) → ¬ (IsRate l) → interval_us l ≡ pos 0
unfolding interval_us
interval_us_zero l h = ground arith

-- What holds of an interval between two operations.
pub record IsValid (s : Interval) : Type 0 where
  pub rate : (s.log_interval ≡ pos 127) ⊎ IsRate s.log_interval
  pub few : s.slowdown_remaining ≤ 9
  pub slower :
      (s.slowdown_remaining ≡ 0)
      ⊎ IsRate s.log_interval
        × (pos 125000 ≤ℤ s.old_interval_us)
        × (s.old_interval_us <ℤ interval_us s.log_interval)

-- The period of a valid interval is 0 exactly when messages are stopped, and else from 1/8 s to 2 ^ 24 s.
pub interval_period_bounds :
    (s : Interval)
    → IsValid s
    → ((s.log_interval ≡ pos 127) × (interval_period s ≡ pos 0))
      ⊎ (IsRate s.log_interval
          × (pos 125000 ≤ℤ interval_period s)
          × (interval_period s ≤ℤ longest_us))
unfolding interval_period
interval_period_bounds s v = ground (arith, interval_us_bounds s.log_interval)

supported-IsRate :
    (r : ℤ) → (neg 24 ≤ℤ supported r) → (supported r ≤ℤ pos 24) → IsRate (supported r)
unfolding supported
supported-IsRate r h k = ground arith

accept-IsValid : (s : Interval) (r : ℤ) → IsValid s → IsValid (accept s r).0
unfolding accept
accept-IsValid s r v =
    ground (arith, interval_us_bounds r, interval_us_zero r, interval_period_bounds s v)

-- Every request, from any peer, keeps the interval valid: its rate stays supported or stopped, and a
-- slowdown in progress is at most nine messages long and goes from a shorter period to a longer one.
pub interval_request-IsValid : (s : Interval) (r : ℤ) → IsValid s → IsValid (interval_request s r).0
unfolding interval_request
interval_request-IsValid s r v = ground (arith, accept-IsValid s (supported r) v)

-- The requests that the protocol gives a meaning to: leave, reset, stop, or a rate from -24 to 24.
abbrev pub IsRequest : ℤ → Type 0
IsRequest r = (r ≡ neg 128) ⊎ (r ≡ pos 126) ⊎ (r ≡ pos 127) ⊎ ((neg 24 ≤ℤ r) × (r ≤ℤ pos 24))

-- The logarithm after a request, told apart from the code's order of tests.
pub requested_log : ℤ → ℤ → ℤ
requested_log l r =
    if r ==ℤ pos 127
    then pos 127
    else if r ==ℤ pos 126
    then pos 0
    else if le_ℤ (neg 24) r && le_ℤ r (pos 24)
    then max_ℤ r (neg 3)
    else l

accept_result :
    (s : Interval) (r : ℤ)
    → (((accept s r).1 ≡ true) ↔ ((r ≡ pos 127) ⊎ IsRate r))
      × (((accept s r).1 ≡ true) × ((accept s r).0.log_interval ≡ r)
          ⊎ ((accept s r).1 ≡ false) × ((accept s r).0 ≡ s))
unfolding accept
accept_result s r = ground (arith, interval_us_bounds r, interval_us_zero r)

supported_cases :
    (r : ℤ)
    → ((r ≡ pos 127) × (supported r ≡ pos 127))
      ⊎ ((r ≡ pos 126) × (supported r ≡ pos 0))
      ⊎ ((neg 24 ≤ℤ r) × (r ≤ℤ pos 24) × (supported r ≡ max_ℤ r (neg 3)) × IsRate (supported r))
      ⊎ ((supported r ≡ r) × (¬ (IsRequest r) ⊎ (r ≡ neg 128)) × ¬ (IsRate r))
unfolding supported
supported_cases r = ground arith

-- A request succeeds exactly when it is a defined one; it then sets the logarithm to the requested
-- one, at least -3, and a request of -128 or one that fails leaves the whole interval unchanged.
pub interval_request_result :
    (s : Interval) (r : ℤ)
    → (((interval_request s r).1 ≡ true) ↔ IsRequest r)
      × ((interval_request s r).0.log_interval ≡ requested_log s.log_interval r)
      × (((interval_request s r).1 ≡ true) × (r ≢ neg 128) ⊎ ((interval_request s r).0 ≡ s))
unfolding interval_request requested_log
interval_request_result s r = ground (arith, accept_result s (supported r), supported_cases r)

-- n messages sent and accepted at the advertised rate
pub sent_times : ℕ → Interval → Interval
sent_times zero s = s
sent_times (suc n) s = sent_times n (interval_sent s s.log_interval true)

sent_times-slowdown :
    (n : ℕ) (s : Interval)
    → sent_times n s ≡ record s { slowdown_remaining = s.slowdown_remaining - n }
unfolding sent_times interval_sent
sent_times-slowdown zero s = ground arith
sent_times-slowdown (suc n) s =
    ground (arith, sent_times-slowdown n (interval_sent s s.log_interval true))

request_of_rate :
    (s : Interval) (r : ℤ)
    → IsRate r
    → r ≢ s.log_interval
    → (interval_request s r).0 ≡ record {
      log_interval = r;
      slowdown_remaining =
          if not (interval_period s ==ℤ pos 0) && lt_ℤ (interval_period s) (interval_us r)
          then 9
          else 0;
      old_interval_us = interval_period s;
    }
unfolding interval_request accept supported
request_of_rate s r h ne = ground (arith, interval_us_bounds r)

slowed_period :
    (old r : ℤ) (n : ℕ)
    → IsRate r
    → pos 0 <ℤ old
    → old <ℤ interval_us r
    → interval_period (record {
      log_interval = r;
      slowdown_remaining = (if not (old ==ℤ pos 0) && lt_ℤ old (interval_us r) then 9 else 0) - n;
      old_interval_us = old;
    })
      ≡ (if ltb n 9 then old else interval_us r)
unfolding interval_period
slowed_period old r n h pos_old grows = ground arith

-- After a request for a longer period, the old period stays in force for nine accepted transmissions
-- at the new rate, and then the new one holds.
pub slowdown_after_nine :
    (s : Interval) (r : ℤ) (n : ℕ)
    → IsRate r
    → r ≢ s.log_interval
    → pos 0 <ℤ interval_period s
    → interval_period s <ℤ interval_us r
    → interval_period (sent_times n (interval_request s r).0)
      ≡ (if ltb n 9 then interval_period s else interval_us r)
slowdown_after_nine s r n h ne pos_old grows =
    rw (sent_times-slowdown n (interval_request s r).0, request_of_rate s r h ne)
      (slowed_period (interval_period s) r n h pos_old grows)

-- A request for a shorter period, or one made while messages are stopped, holds at once.
pub speedup_at_once :
    (s : Interval) (r : ℤ)
    → IsRate r
    → r ≢ s.log_interval
    → (interval_period s ≡ pos 0) ⊎ (interval_us r ≤ℤ interval_period s)
    → interval_period (interval_request s r).0 ≡ interval_us r
unfolding interval_period
speedup_at_once s r h ne fast = ground (arith, request_of_rate s r h ne)

pub interval_sent-IsValid :
    (s : Interval) (advertised : ℤ) (accepted : Bool)
    → IsValid s
    → IsValid (interval_sent s advertised accepted)
unfolding interval_sent
interval_sent-IsValid s advertised accepted v = ground arith

-- The interval after an operation that was sent at its present rate.
abbrev pub counted : Interval → Bool → Interval
counted i accepted = record i {
  slowdown_remaining = if accepted then i.slowdown_remaining - 1 else i.slowdown_remaining;
}

pub interval_sent-counted :
    (i : Interval) (accepted : Bool) → interval_sent i i.log_interval accepted ≡ counted i accepted
unfolding interval_sent
interval_sent-counted i false = refl
interval_sent-counted i true = ground arith
