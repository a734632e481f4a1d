-- ===== src/Message/Normalize/Laws.antt =====
-- What normalisation sets, and what it leaves of the timing fields.
use esp_ptp.Base.{
  ℕ, ◌+◌, ◌*◌, ◌%◌, ◌≤◌, true, ◌&&◌, ◌||◌, if◌then◌else◌, ◌==◌, ltb, leb, ◌≡◌, ◌⊎◌, some, arith,
  length, set, length-set,
}
use esp_ptp.Base.Word.{u8}
use esp_ptp.Base.Bytes.{Bytes, byte, fill, byte-set, byte-fill, length-fill}
use esp_ptp.Message.Normalize.{normalize_header, normalize_body, normalize}

-- The bytes that no message type has normalised: the type, the length and domain, the flags and the
-- correction, the source port and sequence number, and all behind the first body fields.
abbrev pub IsTiming : ℕ → Type 0
IsTiming j = (j ≡ 0) ⊎ (2 ≤ j) × (j ≤ 4) ⊎ (6 ≤ j) × (j ≤ 15) ⊎ (20 ≤ j) × (j ≤ 31) ⊎ (54 ≤ j)

length-normalize_header : (m : Bytes) (minor : ℕ) → length (normalize_header m minor) ≡ length m
unfolding normalize_header
length-normalize_header m minor =
    let a = set m 1 (u8 (minor * 16) + 2) in
    let b = set a 5 0 in
    omega (
      arith,
      length-set m 1 (u8 (minor * 16) + 2),
      length-set a 5 0,
      length-fill b 16 0 4,
      length-set (fill b 16 0 4) 32 0,
    )

byte-normalize_header :
    (m : Bytes) (minor j : ℕ)
    → 34 ≤ length m
    → byte (normalize_header m minor) j ≡ (
        if j == 1
        then u8 (minor * 16) + 2
        else if j == 5 || (leb 16 j && ltb j 20) || j == 32
        then 0
        else byte m j)
unfolding normalize_header
byte-normalize_header m minor j h =
    let a = set m 1 (u8 (minor * 16) + 2) in
    let b = set a 5 0 in
    ground (
      arith,
      length-set m 1 (u8 (minor * 16) + 2),
      length-set a 5 0,
      length-fill b 16 0 4,
      byte-set m 1 (u8 (minor * 16) + 2) j,
      byte-set a 5 0 j,
      byte-fill b 16 0 4 j,
      byte-set (fill b 16 0 4) 32 0 j,
    )

normalize_body_keeps :
    (m : Bytes) (n j : ℕ) → (j ≤ 33) ⊎ (54 ≤ j) → byte (normalize_body m n) j ≡ byte m j
unfolding normalize_body
normalize_body_keeps m n j h =
    ground (arith, byte-fill m 34 0 10 j, byte-fill m 34 0 20 j, byte-set (fill m 34 0 10) 46 0 j)

length-normalize_body : (m : Bytes) (n : ℕ) → length (normalize_body m n) ≡ length m
unfolding normalize_body
length-normalize_body m n =
    ground (arith, length-fill m 34 0 10, length-fill m 34 0 20, length-set (fill m 34 0 10) 46 0)

-- Of a gPTP message that holds a header, normalisation keeps the length, sets the version byte to minor
-- version and PTP version 2 and the second sub-domain, reserved and control bytes to 0, and leaves every
-- timing byte as it was. Signaling gets a log message interval of 0x7f, any other message keeps its own.
pub normalize_result :
    (m : Bytes) (n minor j : ℕ)
    → 34 ≤ n
    → n ≤ length m
    → IsTiming j
    → (m' : Bytes) × (normalize (some m) n true minor ≡ some m')
      × (length m' ≡ length m)
      × (byte m' 1 ≡ minor % 16 * 16 + 2)
      × (byte m' 5 ≡ 0)
      × (byte m' 32 ≡ 0)
      × (byte m' 33 ≡ (if byte m 0 % 16 == 12 then 0x7f else byte m 33))
      × (byte m' j ≡ byte m j)
unfolding normalize
normalize_result m n minor j h fits t =
    let a = normalize_header m minor in
    let b = if byte a 0 % 16 == 12 then set a 33 0x7f else a in
    (
      normalize_body b n,
      ground arith,
      ground
          (arith, length-normalize_body b n, length-set a 33 0x7f, length-normalize_header m minor),
      ground (
        arith,
        normalize_body_keeps b n 1,
        byte-set a 33 0x7f 1,
        byte-normalize_header m minor 1,
        byte-normalize_header m minor 0,
        length-normalize_header m minor,
      ),
      ground (
        arith,
        normalize_body_keeps b n 5,
        byte-set a 33 0x7f 5,
        byte-normalize_header m minor 5,
        byte-normalize_header m minor 0,
        length-normalize_header m minor,
      ),
      ground (
        arith,
        normalize_body_keeps b n 32,
        byte-set a 33 0x7f 32,
        byte-normalize_header m minor 32,
        byte-normalize_header m minor 0,
        length-normalize_header m minor,
      ),
      ground (
        arith,
        normalize_body_keeps b n 33,
        byte-set a 33 0x7f 33,
        byte-normalize_header m minor 33,
        byte-normalize_header m minor 0,
        length-normalize_header m minor,
      ),
      ground (
        arith,
        normalize_body_keeps b n j,
        byte-set a 33 0x7f j,
        byte-normalize_header m minor j,
        byte-normalize_header m minor 0,
        length-normalize_header m minor,
      ),
    )
