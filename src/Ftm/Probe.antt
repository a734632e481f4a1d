-- ===== src/Ftm/Probe.antt =====
-- ptp_source_loss_probe.h: the phases of the source loss diagnostic.
use esp_ptp.Base.{
  ℕ, ◌+◌, ◌*◌, ◌≤◌, Bool, true, false, not, ◌&&◌, ◌||◌, if◌then◌else◌, ◌==◌, ◌≡◌, ◌≢◌, ◌⊎◌, List,
  arith, get_or, set,
}
use esp_ptp.Base.Int.{ℤ, pos, ◌+ℤ◌, ◌-ℤ◌, lt_ℤ, ◌≤ℤ◌, +ℤ_parts, -ℤ_parts}
use esp_ptp.Base.Word.{u32}

-- ptp_source_loss_probe_t
pub record Probe : Type 0 where
  pub started : Bool
  pub start_us : ℤ
  pub phase : ℕ
  pub dropped : List ℕ

-- The phase at a time since the start, with the configured seconds of Announce loss.
pub phase_at : ℕ → ℤ → ℕ
phase_at seconds elapsed =
    let restore = pos (30000000 + seconds * 1000000) in
    if lt_ℤ elapsed (pos 30000000)
    then 0
    else if lt_ℤ elapsed restore
    then 1
    else if lt_ℤ elapsed (restore +ℤ pos 12000000)
    then 2
    else if lt_ℤ elapsed (restore +ℤ pos 16000000)
    then 3
    else 4

-- ptp_source_loss_probe_tick
pub probe_tick : ℕ → Probe → ℤ → Bool → Probe × Bool
probe_tick seconds p now ready =
    if not p.started
    then if not ready || lt_ℤ now (pos 0)
      then (p, false)
      else (record p { started = true; start_us = now; phase = 0 }, true)
    else if lt_ℤ now p.start_us
    then (p, false)
    else let phase' = phase_at seconds (now -ℤ p.start_us) in
      if phase' == p.phase then (p, false) else (record p { phase = phase' }, true)

-- The message is one that the phase drops.
abbrev pub drops : Probe → ℕ → Bool
drops p message_type =
    p.started
    && (p.phase == 1 && message_type == 11
        || p.phase == 3 && (message_type == 0 || message_type == 8))

-- ptp_source_loss_probe_drop
pub probe_drop : Probe → ℕ → Probe × Bool
probe_drop p message_type =
    if drops p message_type
    then (record p { dropped = set p.dropped p.phase (u32 (get_or p.dropped p.phase 0 + 1)) }, true)
    else (p, false)

phase_at_mono : (seconds : ℕ) (a b : ℤ) → a ≤ℤ b → phase_at seconds a ≤ phase_at seconds b
unfolding phase_at
phase_at_mono seconds a b h = ground (
  arith,
  +ℤ_parts (pos (30000000 + seconds * 1000000)) (pos 12000000),
  +ℤ_parts (pos (30000000 + seconds * 1000000)) (pos 16000000),
)

phase_at_most : (seconds : ℕ) (a : ℤ) → phase_at seconds a ≤ 4
unfolding phase_at
phase_at_most seconds a = ground arith

-- Where the clock does not run back the phases only go on, from 0 at the start to 4 at most, and
-- no message is dropped in phase 4 any more.
pub probe_tick_phases :
    (seconds : ℕ) (p : Probe) (now later : ℤ) (ready again : Bool) (message_type : ℕ)
    → p.started ≡ true
    → now ≤ℤ later
    → p.start_us ≤ℤ now
    → let q = (probe_tick seconds p now ready).0 in
      let r = (probe_tick seconds q later again).0 in
      (q.phase ≤ r.phase)
      × (r.phase ≤ 4)
      × (r.start_us ≡ p.start_us)
      × ((r.phase ≢ 4) ⊎ (probe_drop r message_type ≡ (r, false)))
unfolding probe_tick probe_drop
probe_tick_phases seconds p now later ready again message_type h k l = ground (
  arith,
  phase_at_mono seconds (now -ℤ p.start_us) (later -ℤ p.start_us),
  phase_at_most seconds (later -ℤ p.start_us),
  -ℤ_parts now p.start_us,
  -ℤ_parts later p.start_us,
)
