-- ===== src/Peer/CapableReceive.antt =====
-- ptp_capable_receive.h: whether the neighbour has lately said that it is gPTP capable.
use esp_ptp.Base.{
  ℕ, zero, suc, ◌+◌, ◌-◌, ◌*◌, ◌/◌, ◌^◌, ◌≤◌, ◌<◌, Bool, true, false, not, ◌&&◌, ◌||◌,
  if◌then◌else◌, ◌==◌, ◌≡◌, ◌↔◌, ◌⊎◌, Option, none, some, arith,
}
use esp_ptp.Base.Int.{
  ℤ, pos, negsuc, neg, pos_part, ◌+ℤ◌, ◌-ℤ◌, lt_ℤ, le_ℤ, ◌≤ℤ◌, ◌<ℤ◌, int64_max, +ℤ_parts, -ℤ_parts,
}
use esp_ptp.Base.Bytes.{Bytes, same, same_iff}
use esp_ptp.Message.Signaling.{CapableMessage}
use esp_ptp.Schedule.Timing.{pow_bounds, ceil_bounds}

-- ptp_capable_receive_t
pub record CapableReceive : Type 0 where
  pub message : CapableMessage
  pub lifecycle : ℕ
  pub received_us : ℤ
  pub expires_us : ℤ
  pub valid : Bool

-- `interval` of ptp_capable_receive: nine advertised intervals, rounded up to microseconds.
pub receipt_us : ℤ → ℤ
receipt_us (pos n) = pos (9000000 * 2 ^ n)
receipt_us (negsuc n) = pos ((9000000 + 2 ^ suc n - 1) / 2 ^ suc n)

-- ptp_capable_receive; a null neighbour is `none`.
pub capable_receive : CapableReceive → CapableMessage → Option Bytes → ℕ → ℤ → CapableReceive × Bool
capable_receive s message none lifecycle now = (s, false)
capable_receive s message (some neighbor) lifecycle now =
    if not (same message.source_port neighbor)
      || lt_ℤ message.log_interval (neg 24)
      || lt_ℤ (pos 24) message.log_interval
      || lt_ℤ now (pos 0)
    then (s, false)
    else if lt_ℤ (int64_max -ℤ receipt_us message.log_interval) now
    then (s, false)
    else (
      record {
        message = message;
        lifecycle = lifecycle;
        received_us = now;
        expires_us = now +ℤ receipt_us message.log_interval;
        valid = true;
      },
      true,
    )

-- ptp_neighbor_capable
pub neighbor_capable : CapableReceive → Option Bytes → ℕ → ℤ → Bool
neighbor_capable s none lifecycle now = false
neighbor_capable s (some neighbor) lifecycle now =
    s.valid
    && s.lifecycle == lifecycle
    && same s.message.source_port neighbor
    && le_ℤ s.received_us now
    && lt_ℤ now s.expires_us

rounded_up : (a d : ℕ) → 1 ≤ a → 1 ≤ d → (a ≤ (a + d - 1) / d * d) × (((a + d - 1) / d - 1) * d < a)
rounded_up a d ha hd = (grind arith, grind arith)

-- The receipt timeout of an interval 2 ^ k seconds long is exact; that of 2 ^ -k seconds is the least
-- number of microseconds that nine of them fit in. Neither is 0 nor over nine of the longest intervals.
pub receipt_us_bounds :
    (k : ℕ)
    → k ≤ 24
    → (receipt_us (pos k) ≡ pos (9000000 * 2 ^ k))
      × (9000000 ≤ pos_part (receipt_us (neg k)) * 2 ^ k)
      × ((pos_part (receipt_us (neg k)) - 1) * 2 ^ k < 9000000)
      × (pos_part (receipt_us (pos k)) ≤ 9000000 * 2 ^ 24)
      × (1 ≤ pos_part (receipt_us (neg k)))
unfolding receipt_us
receipt_us_bounds zero h = ground arith
receipt_us_bounds (suc n) h =
    ground
      (arith, rounded_up 9000000 (2 ^ suc n), pow_bounds (suc n) h, ceil_bounds 9000000 (2 ^ suc n))

receipt_us_positive : (i : ℤ) → pos 0 ≤ℤ receipt_us i
unfolding receipt_us
receipt_us_positive (pos n) = omega arith
receipt_us_positive (negsuc n) = omega arith

-- A message is accepted exactly when it comes from the neighbour, its interval is supported and its
-- receipt timeout ends within the clock's range; else nothing changes. After it is accepted, this
-- neighbour counts as capable on this lifecycle from the receipt up to the end of its receipt timeout,
-- and at no other time.
pub capable_receive_result :
    (s : CapableReceive) (m : CapableMessage) (neighbor peer : Bytes) (lifecycle life : ℕ)
    (now t : ℤ)
    → let (s', ok) = capable_receive s m (some neighbor) lifecycle now in
      ((ok ≡ false) × (s' ≡ s)
        ⊎ (ok ≡ true)
          × (m.source_port ≡ neighbor)
          × (pos 0 ≤ℤ now)
          × (now +ℤ receipt_us m.log_interval ≤ℤ int64_max)
          × ((neighbor_capable s' (some peer) life t ≡ true) ↔ (
              (peer ≡ neighbor)
              × (life ≡ lifecycle)
              × (now ≤ℤ t)
              × (t <ℤ now +ℤ receipt_us m.log_interval))))
      × ((ok ≡ true) ↔ (
          (m.source_port ≡ neighbor)
          × (neg 24 ≤ℤ m.log_interval)
          × (m.log_interval ≤ℤ pos 24)
          × (pos 0 ≤ℤ now)
          × (now +ℤ receipt_us m.log_interval ≤ℤ int64_max)))
unfolding capable_receive neighbor_capable
capable_receive_result s m neighbor peer lifecycle life now t = ground (
  arith,
  same_iff m.source_port neighbor,
  same_iff m.source_port peer,
  -ℤ_parts int64_max (receipt_us m.log_interval),
  +ℤ_parts now (receipt_us m.log_interval),
  receipt_us_positive m.log_interval,
)
