-- ===== src/Daemon/TimeBase.antt =====
-- The time base fields of the beacon element: ptp_fill_gm_fields of ptp.c.
use esp_ptp.Base.{
  ℕ, zero, suc, ◌+◌, ◌-◌, ◌*◌, ◌/◌, ◌%◌, ◌^◌, ◌≤◌, ◌<◌, Bool, true, false, not, ◌&&◌, ◌||◌,
  if◌then◌else◌, ◌==◌, ltb, leb, ◌≡◌, refl, sym, ap, ◌∙◌, ◌≢◌, ◌↔◌, ◌⊎◌, inl, inr, Option, none,
  some, List, [], ◌∷◌, ◌++◌, map, arith, Bool-cases, Option-cases, ==_iff, length, get_or,
  get_elem?, set, take, drop, replicate, length-set, length-append, length-take, length-drop,
  length-replicate, length-map, take-append-drop,
}
use esp_ptp.Base.Int.{
  ℤ, pos, negsuc, neg, pos_part, neg_part, sub_ℕ, ◌+ℤ◌, ◌-ℤ◌, ◌*ℤ◌, lt_ℤ, le_ℤ, ◌==ℤ◌, ◌≤ℤ◌, ◌<ℤ◌,
  int64_max, int32_max, quot, rem, wrap, signed, min_ℤ, max_ℤ, int_laws, +ℤ_parts, -ℤ_parts,
  eq_of_parts,
}
use esp_ptp.Base.Word.{u8, u16, u32, uint16_max, next_nonzero}
use esp_ptp.Base.Bytes.{
  Bytes, byte, same, same_iff, same_refl, slice, be16, zeros, copy, fill, byte-set, byte-fill,
  byte-copy, length-fill, length-copy, byte-take, byte-drop, byte_past, slice-copy, bytes_ext,
}
use esp_ptp.Daemon.Times.{scaled_ns_from_ns}
pub mod Laws
mod Tests

-- PTP_GM_FIELDS_LEN
abbrev pub gm_fields_len : ℕ
gm_fields_len = 18

-- What ptp_fill_gm_fields reads of struct ptp_state_s: the selected source, the fields it sent last, and
-- the local clock's updates and jumps.
pub record Inputs : Type 0 where
  pub selected_source_valid : Bool
  pub selected_btc : Bytes
  pub own_btc : Bytes
  pub upstream_gm_fields : Bytes
  pub upstream_gm_fields_valid : Bool
  pub clock_updates : ℕ
  pub clock_steps_ns : ℤ

-- What it writes.
pub record TimeBase : Type 0 where
  pub gm_fields_own : Bool
  pub own_time_base_indicator : ℕ
  pub published_gm_valid : Bool
  pub published_btc : Bytes
  pub published_gm_fields : Bytes
  pub published_clock_updates : ℕ
  pub phase_baseline_steps_ns : ℤ

pub is_relaying : Inputs → Bool
is_relaying i = i.selected_source_valid && i.upstream_gm_fields_valid

-- The indicator of its own, where the instance did not have one.
pub own_indicator : Inputs → TimeBase → ℕ
own_indicator i s =
    if s.gm_fields_own then s.own_time_base_indicator else u16 (be16 i.upstream_gm_fields 0 + 1)

-- The first part: the fields and the BTC that they describe.
pub gather : Inputs → TimeBase → TimeBase × Bytes × Bytes
gather i s =
    if is_relaying i
    then (
      record s { gm_fields_own = false },
      take gm_fields_len i.upstream_gm_fields,
      i.selected_btc,
    )
    else let indicator = own_indicator i s in
      (
        record s { gm_fields_own = true; own_time_base_indicator = indicator },
        u8 (indicator / 2 ^ 8) ∷ u8 indicator ∷ zeros 16,
        i.own_btc,
      )

-- `changed`
pub is_changed : TimeBase → Bytes → Bytes → Bool
is_changed s fields btc =
    s.published_gm_valid
    && (not (same btc s.published_btc) || not (same (take 2 fields) (take 2 s.published_gm_fields)))

-- The last part: the fields are published.
pub publish : Inputs → TimeBase → Bytes → Bytes → ℤ → TimeBase × Bytes
publish i s fields btc baseline = (
  record s {
    published_btc = btc;
    published_gm_fields = fields;
    published_clock_updates = i.clock_updates;
    published_gm_valid = true;
    phase_baseline_steps_ns = baseline;
  },
  fields,
)

-- The fields with the time steps that were published, if any were.
pub keep_phase : TimeBase → Bytes → Bytes
keep_phase s fields =
    if s.published_gm_valid then copy fields 2 (slice s.published_gm_fields 2 12) else fields

-- The second part, after the fields are gathered.
pub settle : Inputs → TimeBase → Bytes → Bytes → TimeBase × Bytes
settle i s fields btc =
    if not (is_changed s fields btc)
    then publish i s (keep_phase s fields) btc (
        if not s.published_gm_valid || is_relaying i
        then i.clock_steps_ns
        else s.phase_baseline_steps_ns)
    else if not (is_relaying i)
    then publish i s (copy fields 2 (scaled_ns_from_ns (pos 0))) btc i.clock_steps_ns
    else if i.clock_updates == s.published_clock_updates
    then (s, s.published_gm_fields)
    else publish i s
        (copy fields 2 (scaled_ns_from_ns (i.clock_steps_ns -ℤ s.phase_baseline_steps_ns))) btc
        i.clock_steps_ns

-- ptp_fill_gm_fields: the state and the eighteen bytes written to the element
pub fill_gm_fields : Inputs → TimeBase → TimeBase × Bytes
fill_gm_fields i s = let (s', fields, btc) = gather i s in settle i s' fields btc
