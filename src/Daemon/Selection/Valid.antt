-- ===== src/Daemon/Selection/Valid.antt =====
-- How long the source that Daemon.Selection selected stays valid.
use esp_ptp.Base.{ℕ, ◌*◌, ◌%◌, ◌≤◌, true, false, if◌then◌else◌, ◌≡◌, ◌⊎◌, List, [], ◌∷◌, arith}
use esp_ptp.Base.Int.{ℤ, pos, lt_ℤ, ◌≤ℤ◌, ◌<ℤ◌}
use esp_ptp.Base.Bytes.{Bytes, byte}
use esp_ptp.Peer.Wire.{Timespec}
use esp_ptp.Schedule.SyncReceipt.{receipt_current}
use esp_ptp.Daemon.Times.{receipt_timeout_ns, timespec_delta_ns, log_of}
use esp_ptp.Daemon.Rank.{is_better_clock}
use esp_ptp.Daemon.Selection.{
  State, Options, Received, is_changed, process_announce, revalidate, same_port, announced,
  is_vector_changed, is_selected_source_valid, gptp_current,
}

-- The receipt window of a source without Sync yet.
abbrev pub window_us : Options → State → ℤ
window_us o s =
    if lt_ℤ (pos 0) s.receipt_window_us
    then s.receipt_window_us
    else pos (3000 * o.sync_interval_ms)

-- The Announce repeats the source: its port, its BTC and its vector.
abbrev pub IsRepeat : State → Received → Type 0
IsRepeat s r = (is_changed s r.message ≡ false) × (is_vector_changed s r.message ≡ false)

-- Another port announces a clock that is no better than the valid source.
abbrev pub IsWorse : State → Received → Type 0
IsWorse s r =
    (s.selected_source_valid ≡ true)
    × (same_port s r.message ≡ false)
    × (is_better_clock (announced r.message) (announced s.selected_source) ≡ false)

-- What such an Announce keeps: the receipt, the profile, and a priority that promises Sync.
abbrev IsWaiting : State → State → Type 0
IsWaiting s s' =
    (s'.sync_receipt ≡ s.sync_receipt)
    × (s'.gptp ≡ s.gptp)
    × ((byte s'.selected_source 47 ≡ byte s.selected_source 47) ⊎ (byte s'.selected_source 47 ≡ 0))

-- The fields that decide whether an Announce restarts the receipt.
abbrev SameSource : State → State → Type 0
SameSource s s' =
    (s'.selected_source ≡ s.selected_source)
    × (s'.selected_source_valid ≡ s.selected_source_valid)
    × (s'.sync_receipt ≡ s.sync_receipt)
    × (s'.gptp ≡ s.gptp)

-- What happens between two Syncs: an Announce comes, or the loop judges the source.
pub data Event : Type 0 where
  announce : Received → Event
  turn : Timespec → ℤ → Event

module _ (sub : Timespec → Timespec → Timespec) (o : Options) (domain : ℕ) where
  unfoldable pub step : State → Event → State
  step s (announce r) = process_announce o s r
  step s (turn mono now) = revalidate sub o domain s mono now

  unfoldable pub run : List Event → State → State
  run [] s = s
  run (e ∷ es) s = run es (step s e)

  -- No Announce changes the source.
  abbrev pub IsKept : State → Event → Type 0
  IsKept s (announce r) = IsRepeat s r ⊎ IsWorse s r
  IsKept s (turn mono now) = Unit

  abbrev pub AllKept : List Event → State → Type 0
  AllKept [] s = Unit
  AllKept (e ∷ es) s = IsKept s e × AllKept es (step s e)

-- A gPTP source that is valid was announced within its announce receipt timeout, and has sent Sync
-- within the receipt's interval if its priority is below 255; at that time the message it was selected
-- by is an Announce.
pub valid_source_current :
    (sub : Timespec → Timespec → Timespec) (o : Options) (domain : ℕ) (s : State) (mono : Timespec)
    (now : ℤ)
    → s.gptp ≡ true
    → is_selected_source_valid sub o domain s mono now ≡ true
    → let age = timespec_delta_ns o.time64 mono s.last_selected_announce in
      (pos 0 ≤ℤ age)
      × (age <ℤ receipt_timeout_ns o.announce_interval_ms (log_of (byte s.selected_source 33)))
      × (byte s.selected_source 0 % 16 ≡ 11)
      × ((255 ≤ byte s.selected_source 47) ⊎ (receipt_current s.sync_receipt now ≡ true))
unfolding is_selected_source_valid gptp_current
valid_source_current sub o domain s mono now g h = ground (arith, g, h)
