-- ===== src/Daemon/Format.antt =====
-- timespec_to_ptp_format and ptp_format_to_timespec of ptp.c: the ten bytes of a time.
use esp_ptp.Base.{
  ℕ, suc, ◌+◌, ◌-◌, ◌*◌, ◌/◌, ◌%◌, ◌^◌, ◌<◌, Bool, true, false, if◌then◌else◌, ◌≡◌, [], ◌∷◌, arith,
}
use esp_ptp.Base.Int.{ℤ, pos, negsuc}
use esp_ptp.Base.Bytes.{Bytes, byte}
use esp_ptp.Peer.Wire.{Timespec}

-- `(uint8_t)(v >> n)` of a 64-bit integer; the bytes of a negative one are those of v + 2 ^ 64.
abbrev pub octet : ℤ → ℕ → ℕ
octet (pos v) shift = v / 2 ^ shift % 256
octet (negsuc v) shift = (2 ^ 64 - suc v) / 2 ^ shift % 256

-- timespec_to_ptp_format, where CONFIG_SYSTEM_TIME64 is or is not set
pub to_format : Bool → Timespec → Bytes
to_format time64 t =
    (if time64 then octet t.tv_sec 40 else 0)
    ∷ (if time64 then octet t.tv_sec 32 else 0)
    ∷ octet t.tv_sec 24
    ∷ octet t.tv_sec 16
    ∷ octet t.tv_sec 8
    ∷ octet t.tv_sec 0
    ∷ octet t.tv_nsec 24
    ∷ octet t.tv_nsec 16
    ∷ octet t.tv_nsec 8
    ∷ octet t.tv_nsec 0
    ∷ []

-- ptp_format_to_timespec, where `long` has 64 bits or its shifted byte is below 128
unfoldable pub of_format : Bytes → Timespec
of_format b = record {
  tv_sec = pos (
      byte b 0 * 2 ^ 40
      + byte b 1 * 2 ^ 32
      + byte b 2 * 2 ^ 24
      + byte b 3 * 2 ^ 16
      + byte b 4 * 2 ^ 8
      + byte b 5);
  tv_nsec = pos (byte b 6 * 2 ^ 24 + byte b 7 * 2 ^ 16 + byte b 8 * 2 ^ 8 + byte b 9);
}

bytes_of_six :
    (n : ℕ)
    → n < 2 ^ 48
    → n / 2 ^ 40 % 256 * 2 ^ 40
        + n / 2 ^ 32 % 256 * 2 ^ 32
        + n / 2 ^ 24 % 256 * 2 ^ 24
        + n / 2 ^ 16 % 256 * 2 ^ 16
        + n / 2 ^ 8 % 256 * 2 ^ 8
        + n / 2 ^ 0 % 256
      ≡ n
bytes_of_six n h = omega arith

bytes_of_four :
    (n : ℕ)
    → n < 2 ^ 32
    → n / 2 ^ 24 % 256 * 2 ^ 24
        + n / 2 ^ 16 % 256 * 2 ^ 16
        + n / 2 ^ 8 % 256 * 2 ^ 8
        + n / 2 ^ 0 % 256
      ≡ n
bytes_of_four n h = omega arith

-- A time of at most 48 bits of seconds (32 without CONFIG_SYSTEM_TIME64) and 32 bits of nanoseconds is
-- read back as it was written.
pub of_format-to_format :
    (time64 : Bool) (sec nsec : ℕ)
    → sec < (if time64 then 2 ^ 48 else 2 ^ 32)
    → nsec < 2 ^ 32
    → of_format (to_format time64 (record { tv_sec = pos sec; tv_nsec = pos nsec }))
      ≡ record { tv_sec = pos sec; tv_nsec = pos nsec }
unfolding of_format to_format
of_format-to_format true sec nsec h k = rw (bytes_of_six sec h, bytes_of_four nsec k)
of_format-to_format false sec nsec h k = ground (arith, bytes_of_four sec h, bytes_of_four nsec k)
