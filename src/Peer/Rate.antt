-- ===== src/Peer/Rate.antt =====
-- ptp_peer_rate.h: the rate of a neighbour's clock against the local one, measured from exchange to
-- exchange. The arithmetic of `double` is a parameter.
use esp_ptp.Base.{
  ℕ, zero, suc, ◌+◌, ◌-◌, ◌*◌, ◌/◌, ◌%◌, ◌^◌, ◌≤◌, ◌<◌, Bool, true, false, not, ◌&&◌, ◌||◌,
  if◌then◌else◌, ◌==◌, ltb, leb, ◌≡◌, refl, sym, ap, ◌∙◌, ◌≢◌, ◌↔◌, ◌⊎◌, inl, inr, Option, none,
  some, List, [], ◌∷◌, ◌++◌, map, arith, Bool-cases, Option-cases, ==_iff, length, get_or,
  get_elem?, set, take, drop, replicate, length-set, length-append, length-take, length-drop,
  length-replicate, length-map, take-append-drop,
}
use esp_ptp.Base.Int.{
  ℤ, pos, negsuc, neg, pos_part, neg_part, sub_ℕ, ◌+ℤ◌, ◌-ℤ◌, ◌*ℤ◌, lt_ℤ, le_ℤ, ◌==ℤ◌, ◌≤ℤ◌, ◌<ℤ◌,
  int64_max, int32_max, quot, rem, wrap, signed, min_ℤ, max_ℤ, int_laws, +ℤ_parts, -ℤ_parts,
  eq_of_parts,
}
use esp_ptp.Base.Word.{u8, u16, u32, uint16_max, next_nonzero}
use esp_ptp.Base.Bytes.{
  Bytes, byte, same, same_iff, same_refl, slice, be16, zeros, copy, fill, byte-set, byte-fill,
  byte-copy, length-fill, length-copy, byte-take, byte-drop, byte_past, slice-copy, bytes_ext,
}
use esp_ptp.Peer.Wire.{Timespec}
use esp_ptp.Daemon.Times.{be64}
pub mod Laws
mod Tests

-- The operations of the type double that are used; `decimal n e` is the literal n * 10 ^ -e, `round`
-- is llround, and `to_uint32` a cast.
pub record Double (D : Type 0) : Type 0 where
  pub of_int : ℤ → D
  pub decimal : ℕ → ℕ → D
  pub add : D → D → D
  pub sub : D → D → D
  pub mul : D → D → D
  pub div : D → D → D
  pub at_most : D → D → Bool
  pub less : D → D → Bool
  pub is_finite : D → Bool
  pub round : D → ℤ
  pub to_uint32 : D → ℕ

-- ptp_peer_rate_t
pub record Rate (D : Type 0) : Type 0 where
  pub lifecycle : ℕ
  pub responder : Bytes
  pub anchored : Bool
  pub valid : Bool
  pub reanchor : Bool
  pub remote_previous : Timespec
  pub local_previous : Timespec
  pub correction_previous : D
  pub ratio : D
  pub updates : ℕ
  pub outliers : ℕ

-- PTP_PEER_RATE_OUTLIERS_MAX
abbrev pub outliers_max : ℕ
outliers_max = 3

abbrev pub no_time : Timespec
no_time = record { tv_sec = pos 0; tv_nsec = pos 0 }

module _ {D : Type 0} (F : Double D) where
  pub zero_double : D
  zero_double = F.decimal 0 0

  -- ptp_peer_correction
  pub peer_correction : Bytes → D
  peer_correction wire = F.div (F.of_int (signed (2 ^ 63) (be64 wire 0))) (F.decimal 655360 1)

  -- The difference that ptp_peer_elapsed computes.
  pub elapsed_double : Timespec → Timespec → D
  elapsed_double current previous =
      F.sub
        (F.add (F.mul (F.of_int (current.tv_sec -ℤ previous.tv_sec)) (F.decimal 1000000000 0))
          (F.of_int current.tv_nsec))
        (F.of_int previous.tv_nsec)

  -- ptp_peer_elapsed: the value written, where the result is true
  pub peer_elapsed : Timespec → Timespec → Option D
  peer_elapsed current previous =
      let elapsed = elapsed_double current previous in
      if lt_ℤ current.tv_sec previous.tv_sec || lt_ℤ (pos 10) (current.tv_sec -ℤ previous.tv_sec)
      then none
      else if F.at_most (F.decimal 10000000 0) elapsed
          && F.at_most elapsed (F.decimal 10000000000 0)
      then some elapsed
      else none

  -- The test of a ratio, in ptp_peer_rate_update and ptp_peer_delay_local.
  pub is_plausible : D → Bool
  is_plausible ratio =
      F.is_finite ratio && F.at_most (F.decimal 999 3) ratio && F.at_most ratio (F.decimal 1001 3)

  -- The memset of ptp_peer_rate_update and the values set after it.
  pub fresh : ℕ → Bytes → Rate D
  fresh lifecycle responder = record {
    lifecycle = lifecycle;
    responder = responder;
    anchored = false;
    valid = false;
    reanchor = false;
    remote_previous = no_time;
    local_previous = no_time;
    correction_previous = zero_double;
    ratio = zero_double;
    updates = 0;
    outliers = 0;
  }

  pub anchor : Rate D → Timespec → D → Timespec → Rate D
  anchor r remote correction local = record r {
    remote_previous = remote;
    local_previous = local;
    correction_previous = correction;
    anchored = true;
  }

  -- `local_sound`, with the elapsed local time
  pub local_interval : Rate D → Timespec → Option D
  local_interval r local = if r.anchored then peer_elapsed local r.local_previous else none

  -- `valid` at the end, with the ratio
  pub measured : Rate D → Timespec → D → Timespec → Option D
  measured r remote correction local = elim (local_interval r local) [
    | none ↦ none
    | some local_elapsed ↦ elim (peer_elapsed remote r.remote_previous) [
      | none ↦ none
      | some remote_elapsed ↦
          let ratio =
            F.div (F.sub (F.add remote_elapsed correction) r.correction_previous) local_elapsed in
          if is_plausible ratio then some ratio else none
    ]
  ]

  -- What ptp_peer_rate_update does with an interval that fails.
  pub fail_interval : Rate D → Bool → Rate D × Bool
  fail_interval r local_sound =
      if local_sound && r.valid && ltb r.outliers outliers_max
      then (record r { outliers = r.outliers + 1 }, true)
      else (record r { outliers = 0; valid = false; ratio = zero_double }, false)

  -- ptp_peer_rate_update from the test of `reanchor`
  pub continue_rate : Rate D → Timespec → D → Timespec → Rate D × Bool
  continue_rate r remote correction local =
      if r.reanchor
      then (record (anchor r remote correction local) { reanchor = false }, r.valid)
      else elim (measured r remote correction local) [
        | some ratio ↦ (
          record (anchor r remote correction local) {
            outliers = 0;
            valid = true;
            ratio = ratio;
            updates = u32 (r.updates + 1);
          },
          true,
        )
        | none ↦
            fail_interval (anchor r remote correction local)
              (elim (local_interval r local) [ none ↦ false | some elapsed ↦ true ])
      ]

  -- ptp_peer_rate_update
  pub rate_update : Rate D → ℕ → Bytes → Timespec → D → Timespec → Rate D × Bool
  rate_update r lifecycle responder remote correction local =
      if not (r.lifecycle == lifecycle) || not (same r.responder responder)
      then continue_rate (fresh lifecycle responder) remote correction local
      else continue_rate r remote correction local

  -- ptp_peer_delay_local: the delay, where the result is true
  pub peer_delay_local : D → ℤ → ℤ → D → D → Option D
  peer_delay_local ratio roundtrip reflection response_correction follow_correction =
      let delay =
        F.div
          (F.sub (F.of_int roundtrip) (
            F.div (F.sub (F.add (F.of_int reflection) follow_correction) response_correction)
              ratio))
          (F.decimal 2 0) in
      if not (is_plausible ratio)
        || lt_ℤ roundtrip (pos 0)
        || lt_ℤ (pos 1000000000) roundtrip
        || lt_ℤ reflection (pos 0)
        || lt_ℤ (pos 1000000000) reflection
      then none
      else if F.is_finite delay && F.at_most zero_double delay
      then some delay
      else none
