-- ===== src/Clock/Software/Laws.antt =====
-- The software clock: readings, errors, and what calls do to the time it shows.
use esp_ptp.Base.{Bool, true, false, ◌≡◌, ◌⊎◌, none, some, List, [], ◌∷◌, arith}
use esp_ptp.Base.Int.{ℤ, pos, negsuc, neg, ◌+ℤ◌, ◌-ℤ◌, ◌*ℤ◌, ◌≤ℤ◌, ◌<ℤ◌, +ℤ_parts, -ℤ_parts}
use esp_ptp.Clock.Affine.{billion, affine_now, discipline, target}
use esp_ptp.Clock.Affine.Laws.{
  rate_ppb-reanchor, adjust_rate_continuous, discipline_result, affine_now_mono,
}
use esp_ptp.Clock.Software.{
  State, split_time, join_time, sw_init, sw_settime, sw_adjtime_offset, sw_adjtime_rate,
  refused_arguments, sw_discipline, Call, init, settime, adjtime_offset, adjtime_rate,
  discipline_to, call, run, unset,
}

-- Splitting a time into seconds and nanoseconds loses nothing, and leaves nanoseconds from 0 to below a
-- second, for times before 0 too.
pub split_time_lem :
    (t : ℤ)
    → (join_time (split_time t) ≡ t)
      × (pos 0 ≤ℤ (split_time t).tv_nsec)
      × ((split_time t).tv_nsec <ℤ billion)
unfolding split_time ◌*ℤ◌ ◌+ℤ◌ ◌-ℤ◌
split_time_lem (pos n) = ground arith
split_time_lem (negsuc n) = ground arith

-- The rates within 10 percent.
abbrev pub IsRate : ℤ → Type 0
IsRate r = (neg 100000000 ≤ℤ r) × (r ≤ℤ pos 100000000)

sw_discipline_cases :
    (s : State) (la ra rate : ℤ) (step : Bool) (now : ℤ)
    → (sw_discipline s la ra rate step now ≡ (s, none))
      ⊎ (s.initialized ≡ true)
        × (sw_discipline s la ra rate step now ≡ (
          record s { clock = (discipline s.clock now la ra rate step).0 },
          some (record {
            phase_error = (discipline s.clock now la ra rate step).1;
            applied_rate = (discipline s.clock now la ra rate step).0.rate_ppb;
          }),
        ))
        × (la ≤ℤ now)
        × (now ≤ℤ la +ℤ pos 2000000000)
        × (neg 200000 ≤ℤ rate)
        × (rate ≤ℤ pos 200000)
unfolding sw_discipline refused_arguments
sw_discipline_cases s la ra rate step now =
    ground (arith, -ℤ_parts now la, +ℤ_parts la (pos 2000000000))

call-IsRate :
    (s : State) (now : ℤ) (c : Call)
    → IsRate s.clock.rate_ppb
    → IsRate (call s now c).clock.rate_ppb
unfolding call sw_init sw_settime sw_adjtime_offset sw_adjtime_rate
call-IsRate s now (init none) h = omega arith
call-IsRate s now (init (some ts)) h = omega arith
call-IsRate s now (settime none) h = h
call-IsRate s now (settime (some ts)) h = ground arith
call-IsRate s now (adjtime_offset delta) h = ground (arith, rate_ppb-reanchor s.clock now delta)
call-IsRate s now (adjtime_rate rate) h = ground (arith, adjust_rate_continuous s.clock now rate)
call-IsRate s now (discipline_to la ra rate step) h = ground (
  arith,
  sw_discipline_cases s la ra rate step now,
  discipline_result s.clock now la ra rate step,
)

run-IsRate :
    (s : State) (cs : List (ℤ × Call)) → IsRate s.clock.rate_ppb → IsRate (run s cs).clock.rate_ppb
unfolding run
run-IsRate s [] h = h
run-IsRate s ((now, c) ∷ cs) h = run-IsRate (call s now c) cs (call-IsRate s now c h)

-- After any calls at all, at any times, the rate is within 10 percent and the clock does not run
-- backwards: of two readings with no call between them the later is not before the earlier.
pub run_mono :
    (cs : List (ℤ × Call)) (t u : ℤ)
    → t ≤ℤ u
    → let s = run unset cs in
      IsRate s.clock.rate_ppb × (affine_now s.clock t ≤ℤ affine_now s.clock u)
run_mono cs t u le =
    let r = run-IsRate unset cs (omega arith) in
    (r, affine_now_mono (run unset cs).clock t u (omega arith) (omega arith) le)

-- A change of rate, and a discipline that does not step, leave the reading at their instant as it was; a
-- discipline that is taken moves it by the phase error if it steps. Calls that fail change nothing, and
-- every call but an initialisation fails on a clock that was not initialised.
pub call_continuous :
    (s : State) (now rate la ra : ℤ) (step : Bool)
    → let t = (sw_adjtime_rate s rate now).0 in
      let (u, result) = sw_discipline s la ra rate step now in
      ((s.initialized ≡ true) × (affine_now t.clock now ≡ affine_now s.clock now)
        ⊎ (s.initialized ≡ false) × (t ≡ s) × (u ≡ s) × (result ≡ none))
      × ((u ≡ s)
          ⊎ (step ≡ false) × (affine_now u.clock now ≡ affine_now s.clock now)
          ⊎ (step ≡ true) × (affine_now u.clock now ≡ target now la ra rate))
unfolding sw_adjtime_rate
call_continuous s now rate la ra step = ground (
  arith,
  adjust_rate_continuous s.clock now rate,
  sw_discipline_cases s la ra rate step now,
  discipline_result s.clock now la ra rate step,
)
