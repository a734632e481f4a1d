-- ===== src/Schedule/SyncInterval.antt =====
-- ptp_sync_interval.h: whether a peer has asked for Sync to stop. Only the default rate and stop are
-- supported.
use esp_ptp.Base.{ℕ, ◌^◌, ◌<◌, Bool, true, false, ◌||◌, if◌then◌else◌, ◌≡◌, ◌≢◌, ◌↔◌, ◌⊎◌, arith}
use esp_ptp.Base.Int.{ℤ, pos, neg, ◌==ℤ◌}
use esp_ptp.Base.Word.{next_nonzero}

-- The `stopped` and `revision` that the functions take by reference.
pub record SyncRate : Type 0 where
  pub stopped : Bool
  pub revision : ℕ

-- ptp_sync_interval_reset
unfoldable pub sync_reset : SyncRate → SyncRate
sync_reset s = record { stopped = false; revision = next_nonzero s.revision }

set_stopped : SyncRate → Bool → SyncRate × Bool
set_stopped s true =
    if s.stopped
    then (s, true)
    else (record { stopped = true; revision = next_nonzero s.revision }, true)
set_stopped s false =
    if s.stopped
    then (record { stopped = false; revision = next_nonzero s.revision }, true)
    else (s, true)

-- ptp_sync_interval_request
pub sync_request : SyncRate → ℤ → SyncRate × Bool
sync_request s requested =
    if requested ==ℤ neg 128
    then (s, true)
    else if requested ==ℤ neg 3 || requested ==ℤ pos 126
    then set_stopped s false
    else if requested ==ℤ pos 127
    then set_stopped s true
    else (s, false)

next_nonzero-ne :
    (n : ℕ) → n < 2 ^ 32 → (next_nonzero n ≢ n) × (next_nonzero n ≢ 0) × (next_nonzero n < 2 ^ 32)
next_nonzero-ne n h = ground arith

-- A request changes the state exactly when it changes whether Sync is stopped: then the revision moves
-- to another nonzero value. An unsupported rate is refused and changes nothing.
pub sync_request_revision :
    (s : SyncRate) (r : ℤ)
    → s.revision < 2 ^ 32
    → let (s', ok) = sync_request s r in
      (((s'.stopped ≡ s.stopped) × (s' ≡ s))
        ⊎ (s'.stopped ≢ s.stopped) × (s'.revision ≢ s.revision) × (s'.revision ≢ 0) × (ok ≡ true))
      × ((ok ≡ true) ↔ ((r ≡ neg 128) ⊎ (r ≡ neg 3) ⊎ (r ≡ pos 126) ⊎ (r ≡ pos 127)))
      × ((s'.stopped ≡ true) ↔ ((r ≡ pos 127) ⊎ (s.stopped ≡ true) × (r ≢ neg 3) × (r ≢ pos 126)))
unfolding sync_request set_stopped
sync_request_revision s r h = ground (arith, next_nonzero-ne s.revision h)
