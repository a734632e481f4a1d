-- ===== src/Message/PathTrace.antt =====
-- ptp_path_trace.h: the clocks that an Announce has passed, read from its TLVs and written back with
-- this clock at the end. `identities[0 .. count)` is a list.
use esp_ptp.Base.{
  ℕ, zero, suc, ◌+◌, ◌-◌, ◌*◌, ◌/◌, ◌%◌, ◌^◌, ◌≤◌, ◌<◌, Bool, true, false, not, ◌&&◌, ◌||◌,
  if◌then◌else◌, ◌==◌, ltb, leb, ◌≡◌, refl, sym, ap, ◌∙◌, ◌≢◌, ◌↔◌, ◌⊎◌, inl, inr, Option, none,
  some, List, [], ◌∷◌, ◌++◌, map, arith, Bool-cases, Option-cases, ==_iff, length, get_or,
  get_elem?, set, take, drop, replicate, length-set, length-append, length-take, length-drop,
  length-replicate, length-map, take-append-drop,
}
use esp_ptp.Base.Int.{
  ℤ, pos, negsuc, neg, pos_part, neg_part, sub_ℕ, ◌+ℤ◌, ◌-ℤ◌, ◌*ℤ◌, lt_ℤ, le_ℤ, ◌==ℤ◌, ◌≤ℤ◌, ◌<ℤ◌,
  int64_max, int32_max, quot, rem, wrap, signed, min_ℤ, max_ℤ, int_laws, +ℤ_parts, -ℤ_parts,
  eq_of_parts,
}
use esp_ptp.Base.Word.{u8, u16, u32, uint16_max, next_nonzero}
use esp_ptp.Base.Bytes.{
  Bytes, byte, same, same_iff, same_refl, slice, be16, zeros, copy, fill, byte-set, byte-fill,
  byte-copy, length-fill, length-copy, byte-take, bytes_ext,
}
use mathlib.Core.Option
use mathlib.Core.List.{flatten}
pub mod Parse
mod RoundTrip
mod Tests

abbrev pub max_clocks : ℕ
max_clocks = 16

abbrev pub body_length : ℕ
body_length = 64

abbrev pub Trace : Type 0
Trace = List Bytes

-- The inner loop: `n` identities from `at` on, none of them this clock's own.
pub identities : ℕ → Bytes → ℕ → Bytes → Option Trace
identities zero m from own = some []
identities (suc n) m from own =
    let rest = identities n m (from + 8) own in
    if same (slice m from 8) own then none else Option.map (λ ids. slice m from 8 ∷ ids) rest

-- What the loop over the TLVs ends in: a refusal, or the path of the one path trace TLV, if any.
pub data Outcome : Type 0 where
  unfinished malformed : Outcome
  found : Option Trace → Outcome

-- The path trace TLV of n bytes at `from`, where `seen` is the one before.
pub trace_tlv : Bytes → ℕ → ℕ → Bytes → Option Trace → Option Trace
trace_tlv m from n own (some seen) = none
trace_tlv m from n own none =
    if n == 0 || not (n % 8 == 0) || ltb max_clocks (n / 8)
    then none
    else identities (n / 8) m from own

-- The loop goes on unless the TLV was refused.
abbrev pub go_on : Option Trace → (Option Trace → Outcome) → Outcome
go_on none next = malformed
go_on (some ids) next = next (some ids)

-- The `while` loop, with fuel; `unfinished` means that it ran out.
pub tlvs : ℕ → Bytes → ℕ → ℕ → Bytes → Option Trace → Outcome
tlvs zero m len at own seen = unfinished
tlvs (suc fuel) m len at own seen =
    let n = be16 m (at + 2) in
    let skip = tlvs fuel m len (at + 4 + n) own seen in
    let read = go_on (trace_tlv m (at + 4) n own seen) (tlvs fuel m len (at + 4 + n) own) in
    if leb len at
    then found seen
    else if ltb (len - at) 4 || ltb (len - (at + 4)) n
    then malformed
    else if be16 m at == 8
    then read
    else skip

-- What the fuel gives; it never runs out (`Parse.tlvs_finished`).
trace_of : Outcome → Option Trace
trace_of unfinished = none
trace_of malformed = none
trace_of (found none) = some []
trace_of (found (some ids)) = some ids

-- ptp_path_trace_parse; `none` for a message or an identity is NULL, and as a result is `false`, which
-- leaves the caller's path as it was. (The pointer to that path is never NULL here.)
pub parse : Option Bytes → ℕ → Option Bytes → Option Trace
parse none received own = none
parse (some m) received none = none
parse (some m) received (some own) =
    let len = be16 m 2 in
    if ltb received body_length || ltb len body_length || ltb received len
    then none
    else trace_of (tlvs (suc len) m len body_length own none)

-- Is the identity among them? (The loop that refuses to write a clock twice.)
unfoldable pub member : Bytes → Trace → Bool
member own [] = false
member own (id ∷ ids) = same id own || member own ids

-- The bytes that are written: type, length, the upstream identities, this clock.
pub trace_bytes : Trace → Bytes → Bytes
trace_bytes ids own =
    let n = (length ids + 1) * 8 in 0 ∷ 8 ∷ u8 (n / 256) ∷ u8 n ∷ (flatten ids ++ own)

-- ptp_path_trace_write: the buffer after it, and how many bytes were written. `none` is NULL.
pub write : Option Bytes → ℕ → Option Trace → Option Bytes → Option Bytes × ℕ
write none capacity upstream own = (none, 0)
write (some out) capacity none own = (some out, 0)
write (some out) capacity (some ids) none = (some out, 0)
write (some out) capacity (some ids) (some own) =
    if leb max_clocks (length ids)
    then (some out, 0)
    else if ltb capacity ((length ids + 1) * 8 + 4)
    then (some out, 0)
    else if member own ids
    then (some out, 0)
    else (some (copy out 0 (trace_bytes ids own)), (length ids + 1) * 8 + 4)
