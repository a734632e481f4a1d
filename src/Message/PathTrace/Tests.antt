-- ===== src/Message/PathTrace/Tests.antt =====
-- A path written and read, and instances of the theorems on path traces.
use esp_ptp.Base.{true, false, ◌⊎◌, ◌≤◌, ◌≡◌, refl, none, some, [], ◌∷◌, ◌++◌, arith, length, take}
use esp_ptp.Base.Bytes.{Bytes, same, be16, zeros}
use esp_ptp.Message.PathTrace.{
  max_clocks, body_length, tlvs, trace_tlv, identities, trace_of, parse, member, trace_bytes, write,
}
use mathlib.Core.List.{flatten}
use esp_ptp.Message.PathTrace.Parse.{parse_sound}
use esp_ptp.Message.PathTrace.RoundTrip.{parse-write}

abbrev clock_a : Bytes
clock_a = 1 ∷ 2 ∷ 3 ∷ 4 ∷ 5 ∷ 6 ∷ 7 ∷ 8 ∷ []

abbrev clock_b : Bytes
clock_b = 11 ∷ 12 ∷ 13 ∷ 14 ∷ 15 ∷ 16 ∷ 17 ∷ 18 ∷ []

abbrev clock_c : Bytes
clock_c = 21 ∷ 22 ∷ 23 ∷ 24 ∷ 25 ∷ 26 ∷ 27 ∷ 28 ∷ []

-- An Announce body whose length field counts a path of two clocks.
abbrev body : Bytes
body =
    27 ∷ 18 ∷ 0 ∷ 84 ∷ 0 ∷ 0 ∷ 0 ∷ 0 ∷ 0 ∷ 0 ∷ 0 ∷ 0 ∷ 0 ∷ 0 ∷ 0 ∷ 0 ∷ 0 ∷ 0 ∷ 0 ∷ 0 ∷ 0 ∷ 0 ∷ 0 ∷ 0
    ∷ 0 ∷ 0 ∷ 0 ∷ 0 ∷ 0 ∷ 0 ∷ 0 ∷ 0 ∷ 0 ∷ 0 ∷ 0 ∷ 0 ∷ 0 ∷ 0 ∷ 0 ∷ 0 ∷ 0 ∷ 0 ∷ 0 ∷ 0 ∷ 0 ∷ 0 ∷ 0 ∷ 0
    ∷ 0 ∷ 0 ∷ 0 ∷ 0 ∷ 0 ∷ 0 ∷ 0 ∷ 0 ∷ 0 ∷ 0 ∷ 0 ∷ 0 ∷ 0 ∷ 0 ∷ 0 ∷ 0 ∷ []

-- The path of clock_b and clock_a, in a buffer of 40 bytes.
abbrev written : Bytes
written =
    0 ∷ 8 ∷ 0 ∷ 16 ∷ 11 ∷ 12 ∷ 13 ∷ 14 ∷ 15 ∷ 16 ∷ 17 ∷ 18 ∷ 1 ∷ 2 ∷ 3 ∷ 4 ∷ 5 ∷ 6 ∷ 7 ∷ 8 ∷ 0 ∷ 0
    ∷ 0 ∷ 0 ∷ 0 ∷ 0 ∷ 0 ∷ 0 ∷ 0 ∷ 0 ∷ 0 ∷ 0 ∷ 0 ∷ 0 ∷ 0 ∷ 0 ∷ 0 ∷ 0 ∷ 0 ∷ 0 ∷ []

looped_refused : parse (some (body ++ written)) 104 (some clock_b) ≡ none
unfolding parse tlvs trace_tlv identities trace_of same
looped_refused = refl

parse_sound_example :
    (length (clock_b ∷ clock_a ∷ []) ≤ max_clocks)
    × (member clock_c (clock_b ∷ clock_a ∷ []) ≡ false)
    × (body_length ≤ be16 (body ++ written) 2)
    × (be16 (body ++ written) 2 ≤ 104)
    × ((member clock_b (clock_b ∷ clock_a ∷ []) ≡ true)
          × (parse (some (body ++ written)) 104 (some clock_b) ≡ none)
        ⊎ (member clock_b (clock_b ∷ clock_a ∷ []) ≡ false)
          × (parse (some (body ++ written)) 104 (some clock_b) ≡ some (clock_b ∷ clock_a ∷ [])))
unfolding parse tlvs trace_tlv identities trace_of same
parse_sound_example =
    parse_sound (body ++ written) 104 clock_c clock_b (clock_b ∷ clock_a ∷ []) refl

parse-write_example :
    parse (some (body ++ (take 20 written ++ (zeros 4)))) 88 (some clock_c)
    ≡ some ((clock_b ∷ []) ++ clock_a ∷ [])
unfolding write member trace_bytes flatten same
parse-write_example =
    parse-write (zeros 40) written body (zeros 4) 20 40 88 (clock_b ∷ []) clock_a clock_c (refl, tt)
      refl (omega arith) refl refl (ground arith) refl (omega arith) refl
