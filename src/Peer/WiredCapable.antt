-- ===== src/Peer/WiredCapable.antt =====
-- ptp_wired_capable.h: the gPTP-capable messages that a wired port sends to its peer.
use esp_ptp.Base.{
  ℕ, Bool, true, false, not, ◌&&◌, ◌||◌, if◌then◌else◌, ◌==◌, ◌≡◌, ◌≢◌, ◌⊎◌, Option, none, some,
  arith,
}
use esp_ptp.Base.Int.{pos}
use esp_ptp.Base.Bytes.{Bytes, same, same_iff, zeros}
use esp_ptp.Message.Signaling.{CapableMessage}
use esp_ptp.Schedule.Capable.{Schedule, schedule_request}

-- ptp_wired_capable_t
pub record WiredCapable : Type 0 where
  pub transmit : Schedule
  pub lifecycle : ℕ
  pub identity : Bytes
  pub bound : Bool

-- A zeroed schedule that keeps its serial number.
abbrev pub cleared : Schedule → Schedule
cleared s = record {
  interval = record { log_interval = pos 0; slowdown_remaining = 0; old_interval_us = pos 0 };
  next_us = pos 0;
  queued_us = pos 0;
  serial = s.serial;
  pending = 0;
  sequence = 0;
  advertised_interval = pos 0;
  active = false;
}

-- The first statement of ptp_wired_capable_bind.
pub renew : WiredCapable → ℕ → Bool → WiredCapable
renew w lifecycle other =
    if not (w.lifecycle == lifecycle) || other
    then record {
      transmit = cleared w.transmit;
      lifecycle = lifecycle;
      identity = zeros 10;
      bound = false;
    }
    else w

-- ptp_wired_capable_bind; a null identity is `none`.
pub bind : WiredCapable → ℕ → Option Bytes → WiredCapable
bind w lifecycle none = renew w lifecycle false
bind w lifecycle (some identity) =
    record (renew w lifecycle (w.bound && not (same w.identity identity))) {
      identity = identity;
      bound = true;
    }

-- ptp_wired_capable_request
pub request : WiredCapable → ℕ → CapableMessage → WiredCapable × Bool
request w lifecycle m =
    if not (w.bound && w.lifecycle == lifecycle && same w.identity m.source_port)
    then (w, false)
    else let (transmit', ok) = schedule_request w.transmit m.log_interval in
      (record w { transmit = transmit' }, ok)

-- A token that was pending on the link dies with the lifecycle or with the peer's identity: no
-- operation is pending after the change, and the serial number goes on from where it was, so that the
-- token is not issued again. With the same lifecycle and identity the schedule is kept.
pub bind_result :
    (w : WiredCapable) (lifecycle : ℕ) (identity : Bytes)
    → let w' = bind w lifecycle (some identity) in
      (w'.bound ≡ true)
      × (w'.identity ≡ identity)
      × (w'.lifecycle ≡ lifecycle)
      × (w'.transmit.serial ≡ w.transmit.serial)
      × (((w.lifecycle ≢ lifecycle) ⊎ (w.bound ≡ true) × (w.identity ≢ identity))
            × (w'.transmit.pending ≡ 0)
          ⊎ (w'.transmit ≡ w.transmit))
unfolding bind renew
bind_result w lifecycle identity = ground (arith, same_iff w.identity identity)

-- A peer's request for an interval is taken only from the port bound on this lifecycle, and the peer
-- bound by ptp_wired_capable_bind is served until the lifecycle or the identity changes.
pub bind-request :
    (w : WiredCapable) (lifecycle : ℕ) (identity : Bytes) (life : ℕ) (m : CapableMessage)
    → let w' = bind w lifecycle (some identity) in
      ((life ≡ lifecycle)
          × (m.source_port ≡ identity)
          × ((request w' life m).0.transmit ≡ (schedule_request w'.transmit m.log_interval).0)
          × ((request w' life m).1 ≡ (schedule_request w'.transmit m.log_interval).1)
        ⊎ ((life ≢ lifecycle) ⊎ (m.source_port ≢ identity)) × (request w' life m ≡ (w', false)))
unfolding bind renew request
bind-request w lifecycle identity life m = ground (arith, same_iff identity m.source_port)
