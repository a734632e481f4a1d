-- ===== src/Wifi/Media.antt =====
-- ptp_wifi_capable.h: the media capability of one Wi-Fi association.
use esp_ptp.Base.{
  ℕ, ◌+◌, Bool, true, false, not, ◌&&◌, ◌||◌, if◌then◌else◌, ◌==◌, ◌≡◌, ◌↔◌, ◌⊎◌, arith,
}
use Prim.Native.Nat.{bit_and}

-- ptp_wifi_media_t
pub record Media : Type 0 where
  pub tm_local : Bool
  pub tm_peer : Bool
  pub ftm_local : Bool
  pub ftm_peer : Bool
  pub granted_frames : ℕ

-- ptp_wifi_tm_ftm_support; the two bits do not overlap, so `|` adds them.
pub tm_ftm_support : Media → ℕ
tm_ftm_support m =
    (if m.tm_local && m.tm_peer then 1 else 0) + (if m.ftm_local && m.ftm_peer then 2 else 0)

-- ptp_wifi_as_capable
pub as_capable : Media → Bool → ℕ → Bool
as_capable m neighbor_gptp_capable domain =
    let support = tm_ftm_support m in
    let timing_measurement = not (bit_and support 1 == 0) in
    let ftm_granted =
      not (bit_and support 2 == 0) && (m.granted_frames == 3 || m.granted_frames == 2) in
    if support == 0
    then false
    else if neighbor_gptp_capable && (timing_measurement || ftm_granted)
    then true
    else domain == 0 && timing_measurement

-- A port is asCapable exactly when Timing Measurement is supported at both ends and the neighbour
-- signals capability or the domain is 0, or when the neighbour signals capability and has granted two
-- or three Fine Timing Measurement frames that both ends support.
pub as_capable_iff :
    (m : Media) (neighbor : Bool) (domain : ℕ)
    → (as_capable m neighbor domain ≡ true) ↔ (
        (m.tm_local ≡ true) × (m.tm_peer ≡ true) × ((neighbor ≡ true) ⊎ (domain ≡ 0))
        ⊎ (neighbor ≡ true)
          × (m.ftm_local ≡ true)
          × (m.ftm_peer ≡ true)
          × ((m.granted_frames ≡ 2) ⊎ (m.granted_frames ≡ 3)))
unfolding as_capable tm_ftm_support
as_capable_iff m neighbor domain = ground arith
