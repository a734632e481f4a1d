-- ===== src/Message/PathTrace/RoundTrip.antt =====
-- Writing a path trace and reading it back.
use esp_ptp.Base.{
  ℕ, suc, ◌+◌, ◌*◌, ◌/◌, ◌≤◌, ◌<◌, false, ◌≡◌, refl, sym, ◌≢◌, ◌⊎◌, inl, inr, none, some, [], ◌∷◌,
  ◌++◌, arith, length, take, length-append,
}
use esp_ptp.Base.Word.{u8}
use esp_ptp.Base.Bytes.{
  Bytes, byte, be16, copy, slice-append, byte-append_right, byte-append_left, take-copy,
}
use mathlib.Core.List.{flatten, append_assoc, append-nil}
use esp_ptp.Message.PathTrace.{
  Trace, found, identities, trace_tlv, tlvs, trace_of, parse, member, max_clocks, trace_bytes,
  write,
}

abbrev pub AllEight : Trace → Type 0
AllEight [] = Unit
AllEight (id ∷ ids) = (length id ≡ 8) × AllEight ids

length-flatten : (ids : Trace) → AllEight ids → length (flatten ids) ≡ length ids * 8
unfolding flatten
length-flatten [] h = omega arith
length-flatten (id ∷ ids) h = omega (arith, length-append id (flatten ids), length-flatten ids h.1)

length-trace_bytes :
    (ids : Trace) (own : Bytes)
    → AllEight ids
    → length own ≡ 8
    → length (trace_bytes ids own) ≡ (length ids + 1) * 8 + 4
unfolding trace_bytes
length-trace_bytes ids own h8 own8 =
    omega (arith, length-append (flatten ids) own, length-flatten ids h8)

-- Either nothing is written and the buffer is as it was, or the bytes of the path with this clock at
-- its end stand at the front of the buffer; that happens only for fewer than 16 clocks without this one,
-- and within the capacity.
pub write_result :
    (out : Bytes) (capacity : ℕ) (ids : Trace) (own : Bytes)
    → AllEight ids
    → length own ≡ 8
    → capacity ≤ length out
    → let (out', n) = write (some out) capacity (some ids) (some own) in
      (n ≡ 0) × (out' ≡ some out)
      ⊎ (n ≡ length (trace_bytes ids own))
        × (n ≤ capacity)
        × (length ids < max_clocks)
        × (member own ids ≡ false)
        × (out' ≡ some (copy out 0 (trace_bytes ids own)))
        × (take n (copy out 0 (trace_bytes ids own)) ≡ trace_bytes ids own)
unfolding write
write_result out capacity ids own h8 own8 fits =
    ground (arith, length-trace_bytes ids own h8 own8, take-copy out (trace_bytes ids own))

identities-flatten :
    (ids : Trace) (pre rest : Bytes) (from : ℕ) (receiver : Bytes)
    → AllEight ids
    → member receiver ids ≡ false
    → from ≡ length pre
    → identities (length ids) (pre ++ (flatten ids ++ rest)) from receiver ≡ some ids
unfolding identities member flatten
identities-flatten [] pre rest from receiver h8 h e = refl
identities-flatten (id ∷ ids) pre rest from receiver h8 h e =
    let tail : identities (length ids) ((pre ++ id) ++ (flatten ids ++ rest)) (from + 8) receiver
        ≡ some ids =
      identities-flatten ids (pre ++ id) rest (from + 8) receiver h8.1 (ground arith)
        (omega (arith, length-append pre id, h8.0)) in
    rw
      (
        append_assoc id (flatten ids) rest,
        slice-append pre id (flatten ids ++ rest) from 8 e (sym h8.0),
      )
      (rw (← append_assoc pre id (flatten ids ++ rest)) (ground (arith, tail)))

flatten_snoc : (ids : Trace) (own : Bytes) → flatten (ids ++ own ∷ []) ≡ flatten ids ++ own
unfolding flatten
flatten_snoc [] own = append-nil own
flatten_snoc (id ∷ ids) own = rw (flatten_snoc ids own) (sym (append_assoc id (flatten ids) own))

All-snoc : (ids : Trace) (own : Bytes) → AllEight ids → length own ≡ 8 → AllEight (ids ++ own ∷ [])
All-snoc [] own h e = (e, tt)
All-snoc (id ∷ ids) own h e = (h.0, All-snoc ids own h.1 e)

-- A message whose only TLV is a path trace.
tlvs_one :
    (fuel : ℕ) (m : Bytes) (len at n : ℕ) (own : Bytes) {ids : Trace}
    → be16 m at ≡ 8
    → be16 m (at + 2) ≡ n
    → len ≡ at + 4 + n
    → trace_tlv m (at + 4) n own none ≡ some ids
    → tlvs (suc (suc fuel)) m len at own none ≡ found (some ids)
unfolding tlvs
tlvs_one fuel m len at n own type size end read = ground arith

module _ (body pad : Bytes) (ids : Trace) (own receiver : Bytes) (body64 : length body ≡ 64)
    (h8 : AllEight ids) (own8 : length own ≡ 8) (few : length ids < max_clocks)
    (fresh : member receiver (ids ++ own ∷ []) ≡ false) where
  abbrev size : ℕ
  size = (length ids + 1) * 8

  abbrev message : Bytes
  message = body ++ (trace_bytes ids own ++ pad)

  byte_at : (i : ℕ) → byte message (64 + i) ≡ byte (trace_bytes ids own ++ pad) i
  byte_at i = rw (← body64) (byte-append_right body (trace_bytes ids own ++ pad) i)

  type_at : be16 message 64 ≡ 8
  unfolding trace_bytes
  type_at = omega (arith, byte_at 0, byte_at 1)

  size_at : be16 message 66 ≡ size
  unfolding trace_bytes
  size_at = omega (arith, byte_at 2, byte_at 3)

  regroup :
      message
      ≡ (body ++ (0 ∷ 8 ∷ u8 (size / 256) ∷ u8 size ∷ [])) ++ (flatten (ids ++ own ∷ []) ++ pad)
  unfolding trace_bytes
  regroup = simp (flatten_snoc, append_assoc)

  identities_back :
      identities (length (ids ++ own ∷ [])) message 68 receiver ≡ some (ids ++ own ∷ [])
  identities_back =
      let four = 0 ∷ 8 ∷ u8 (size / 256) ∷ u8 size ∷ [] in
      rw regroup (
        identities-flatten (ids ++ own ∷ []) (body ++ four) pad 68 receiver
          (All-snoc ids own h8 own8) fresh (omega (arith, length-append body four)))

  read_back : trace_tlv message 68 size receiver none ≡ some (ids ++ own ∷ [])
  unfolding trace_tlv
  read_back =
      let e : size / 8 ≡ length (ids ++ own ∷ []) = omega (arith, length-append ids (own ∷ [])) in
      ground (arith, e, identities_back)

  parse_message :
      (received : ℕ)
      → be16 body 2 ≡ 64 + (size + 4)
      → 64 + (size + 4) ≤ received
      → parse (some message) received (some receiver) ≡ some (ids ++ own ∷ [])
  unfolding parse trace_of
  parse_message received e all =
      let len : be16 message 2 ≡ 64 + (size + 4) = omega (
        arith,
        e,
        byte-append_left body (trace_bytes ids own ++ pad) 2 (omega arith),
        byte-append_left body (trace_bytes ids own ++ pad) 3 (omega arith),
      ) in
      let fuel : suc (64 + (size + 4)) ≡ suc (suc (67 + size)) = omega arith in
      let read =
        tlvs_one (67 + size) message (64 + (size + 4)) 64 size receiver type_at size_at
          (omega arith) read_back in
      rw (len, fuel, read) (ground arith)

-- A path of fewer than 16 clocks that is written behind an Announce body, whose length field counts it,
-- is read back by any clock not on it as the same path with the writing clock at its end. What follows
-- the message, such as padding, makes no difference.
pub parse-write :
    (out out' body pad : Bytes) (n capacity received : ℕ) (ids : Trace) (own receiver : Bytes)
    → AllEight ids
    → length own ≡ 8
    → capacity ≤ length out
    → length body ≡ 64
    → write (some out) capacity (some ids) (some own) ≡ (some out', n)
    → n ≢ 0
    → be16 body 2 ≡ 64 + n
    → 64 + n ≤ received
    → member receiver (ids ++ own ∷ []) ≡ false
    → parse (some (body ++ (take n out' ++ pad))) received (some receiver) ≡ some (ids ++ own ∷ [])
parse-write out out' body pad n capacity received ids own receiver h8 own8 fits body64 w written len
      all fresh =
    elim (write_result out capacity ids own h8 own8 fits) [
      | inl z ↦ absurd (written (ground arith))
      | inr c ↦
          let e : take n out' ≡ trace_bytes ids own = ground arith in
          let size = length-trace_bytes ids own h8 own8 in
          rw e (
            parse_message body pad ids own receiver body64 h8 own8 c.2 fresh received
              (ground (arith, size)) (ground (arith, size)))
    ]
