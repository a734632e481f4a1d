-- ===== src/Peer/Capability.antt =====
-- ptp_peer_capability.h: whether a peer delay measurement still makes the link asCapable.
use esp_ptp.Base.{ℕ, ◌*◌, Bool, true, ◌&&◌, ◌||◌, ◌==◌, ◌≡◌, ◌↔◌, ◌⊎◌, arith}
use esp_ptp.Base.Int.{
  ℤ, pos, ◌+ℤ◌, ◌-ℤ◌, ◌*ℤ◌, lt_ℤ, le_ℤ, ◌≤ℤ◌, ◌<ℤ◌, int64_max, quot, +ℤ_parts, -ℤ_parts,
  pos-mul-pos,
}

-- ptp_peer_capability_t
pub record Capability : Type 0 where
  pub lifecycle : ℕ
  pub received_us : ℤ
  pub qualified : Bool

-- What ptp_peer_capable reads of the port and the link.
pub record Link : Type 0 where
  pub lifecycle : ℕ
  pub enabled : Bool
  pub link_up : Bool
  pub gptp : Bool
  pub domain : ℕ
  pub neighbor_capable : Bool

-- ptp_peer_capable; `interval * 3` and the difference are in range where they are computed.
pub peer_capable : Capability → Link → ℤ → ℤ → Bool
peer_capable c link now interval =
    link.enabled
    && link.link_up
    && link.gptp
    && (link.domain == 0 || link.neighbor_capable)
    && c.qualified
    && c.lifecycle == link.lifecycle
    && lt_ℤ (pos 0) interval
    && le_ℤ interval (quot int64_max (pos 3))
    && le_ℤ c.received_us now
    && lt_ℤ (now -ℤ c.received_us) (interval *ℤ pos 3)

-- A link that is capable has been so since the measurement and is so until three intervals after it,
-- and not from then on; it has a qualified measurement of its own lifecycle, and outside domain 0 a
-- neighbour that signals capability.
pub peer_capable_window :
    (c : Capability) (link : Link) (now t : ℤ) (interval : ℕ)
    → peer_capable c link now (pos interval) ≡ true
    → ((peer_capable c link t (pos interval) ≡ true)
        ↔ ((c.received_us ≤ℤ t) × (t <ℤ c.received_us +ℤ pos (3 * interval))))
      × (c.qualified ≡ true)
      × (c.lifecycle ≡ link.lifecycle)
      × ((link.domain ≡ 0) ⊎ (link.neighbor_capable ≡ true))
unfolding peer_capable
peer_capable_window c link now t interval h = ground (
  arith,
  pos-mul-pos interval 3,
  -ℤ_parts t c.received_us,
  -ℤ_parts now c.received_us,
  +ℤ_parts c.received_us (pos (3 * interval)),
)
