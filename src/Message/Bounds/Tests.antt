-- ===== src/Message/Bounds/Tests.antt =====
-- An instance of the theorem on message lengths.
use esp_ptp.Base.{◌%◌, ◌≤◌, ◌<◌, ◌≡◌, refl, ◌≢◌, ◌⊎◌, some, [], ◌∷◌, ◌++◌}
use esp_ptp.Base.Bytes.{Bytes, byte, be16, zeros}
use esp_ptp.Message.Bounds.{minimum, bounded_length, bounded_length_result}

-- A Sync message of 44 bytes.
abbrev sync : Bytes
sync =
    16 ∷ 18 ∷ 0 ∷ 44 ∷ 0 ∷ 0 ∷ 0 ∷ 0 ∷ 0 ∷ 0 ∷ 0 ∷ 0 ∷ 0 ∷ 0 ∷ 0 ∷ 0 ∷ 0 ∷ 0 ∷ 0 ∷ 0 ∷ 0 ∷ 0 ∷ 0 ∷ 0
    ∷ 0 ∷ 0 ∷ 0 ∷ 0 ∷ 0 ∷ 0 ∷ 0 ∷ 0 ∷ 0 ∷ 0 ∷ 0 ∷ 0 ∷ 0 ∷ 0 ∷ 0 ∷ 0 ∷ 0 ∷ 0 ∷ 0 ∷ 0 ∷ []

padded : bounded_length (some (sync ++ zeros 16)) 60 ≡ 44
unfolding bounded_length minimum
padded = refl

truncated : bounded_length (some sync) 43 ≡ 0
unfolding bounded_length minimum
truncated = refl

bounded_length_result_example :
    let n = bounded_length (some (sync ++ zeros 16)) 60 in
    ((n ≡ be16 (sync ++ zeros 16) 2)
      × (34 ≤ n)
      × (minimum (byte (sync ++ zeros 16) 0) ≤ n)
      × (n ≤ 60)
      × (byte (sync ++ zeros 16) 1 % 16 ≡ 2))
    ⊎ (n ≡ 0)
      × ((60 < 34)
          ⊎ (byte (sync ++ zeros 16) 1 % 16 ≢ 2)
          ⊎ (be16 (sync ++ zeros 16) 2 < minimum (byte (sync ++ zeros 16) 0))
          ⊎ (60 < be16 (sync ++ zeros 16) 2))
bounded_length_result_example = bounded_length_result (sync ++ zeros 16) 60
