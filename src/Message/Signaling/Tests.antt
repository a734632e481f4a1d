-- ===== src/Message/Signaling/Tests.antt =====
-- A capability message written and read, and instances of the theorems on Signaling.
use esp_ptp.Base.{ℕ, ◌≤◌, ◌≡◌, refl, ◌≢◌, ◌⊎◌, none, [], ◌∷◌, arith, take, replicate}
use esp_ptp.Base.Int.{neg}
use esp_ptp.Base.Bytes.{Bytes, byte, same, slice, be16, zeros}
use esp_ptp.Message.Signaling.{
  decoded, ignored, malformed, nothing_seen, unfinished, walk, find_tlv, addressed, walk_result,
  known, organisation, expected_type, expected_body, seen_kind, mark_kind, read_capable,
  read_capable_interval, write_capable, capable_stores, capable_at, decode_with, read_capable_tlv,
}
use esp_ptp.Message.Signaling.Decode.{IsTlv, walk_finished, find_tlv_sound}
use esp_ptp.Message.Signaling.RoundTrip.{read-write_capable}

abbrev source : Bytes
source = 17 ∷ 18 ∷ 19 ∷ 20 ∷ 21 ∷ 22 ∷ 23 ∷ 24 ∷ 25 ∷ 26 ∷ []

abbrev own : Bytes
own = 33 ∷ 34 ∷ 35 ∷ 36 ∷ 37 ∷ 38 ∷ 39 ∷ 40 ∷ 41 ∷ 42 ∷ []

-- A capability message of `source` with an interval of 1/8 s.
abbrev message : Bytes
message =
    28 ∷ 18 ∷ 0 ∷ 60 ∷ 0 ∷ 0 ∷ 0 ∷ 0 ∷ 0 ∷ 0 ∷ 0 ∷ 0 ∷ 0 ∷ 0 ∷ 0 ∷ 0 ∷ 0 ∷ 0 ∷ 0 ∷ 0 ∷ 17 ∷ 18 ∷ 19
    ∷ 20 ∷ 21 ∷ 22 ∷ 23 ∷ 24 ∷ 25 ∷ 26 ∷ 0 ∷ 9 ∷ 0 ∷ 127 ∷ 255 ∷ 255 ∷ 255 ∷ 255 ∷ 255 ∷ 255 ∷ 255
    ∷ 255 ∷ 255 ∷ 255 ∷ 128 ∷ 0 ∷ 0 ∷ 12 ∷ 0 ∷ 128 ∷ 194 ∷ 0 ∷ 0 ∷ 4 ∷ 253 ∷ 0 ∷ 0 ∷ 0 ∷ 0 ∷ 0 ∷ []

abbrev domain : ℕ
domain = 0

abbrev code : ℕ
code = 1

abbrev at : ℕ
at = 44

capable_read :
    read_capable message 60 0 own
    ≡ decoded 1 (record { source_port = source; log_interval = neg 3 })
unfolding read_capable read_capable_tlv decode_with capable_at find_tlv walk addressed walk_result
    known organisation expected_type expected_body seen_kind mark_kind same
capable_read = refl

own_ignored : read_capable message 60 0 source ≡ ignored
unfolding read_capable read_capable_tlv decode_with capable_at find_tlv walk addressed walk_result
    known organisation expected_type expected_body seen_kind mark_kind same
own_ignored = refl

truncated : read_capable message 59 0 own ≡ malformed
unfolding read_capable read_capable_tlv decode_with capable_at find_tlv walk addressed walk_result
    known organisation expected_type expected_body seen_kind mark_kind same
truncated = refl

walk_finished_example : walk 17 message 60 4 44 nothing_seen none ≢ unfinished
walk_finished_example = walk_finished 17 message 60 4 44 nothing_seen none (omega arith)

find_tlv_sound_example :
    (code ≡ 1)
    × IsTlv message (be16 message 2) 4 at
    × (be16 message 2 ≤ 60)
    × (byte message 0 ≡ 0x1c)
    × (byte message 4 ≡ domain)
    × ((slice message 34 10 ≡ replicate 10 255) ⊎ (slice message 34 10 ≡ own))
    × (slice message 20 8 ≢ take 8 own)
unfolding find_tlv walk addressed walk_result known organisation expected_type expected_body
    seen_kind mark_kind same
find_tlv_sound_example = find_tlv_sound message 60 domain own 4 code at refl

read-write_capable_example :
    (read_capable message 60 0 own
      ≡ decoded 1 (record { source_port = source; log_interval = (neg 3) }))
    × (read_capable_interval message 60 0 own ≡ ignored)
unfolding write_capable capable_stores same
read-write_capable_example =
    read-write_capable source (zeros 60) message own 60 60 60 0 9 (neg 3) refl (omega arith) refl
      (ground arith) (omega arith) refl
