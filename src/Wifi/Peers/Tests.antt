-- ===== src/Wifi/Peers/Tests.antt =====
-- A station that associates again, and instances of the theorems on the registry.
use esp_ptp.Base.{
  ℕ, ◌^◌, ◌<◌, true, false, ◌≡◌, refl, ◌≢◌, ◌⊎◌, inl, none, [], ◌∷◌, arith, replicate,
}
use esp_ptp.Base.Int.{pos, neg}
use esp_ptp.Base.Bytes.{Bytes, zeros}
use esp_ptp.Message.Signaling.{CapableMessage, IntervalMessage}
use esp_ptp.Wifi.Peers.{Peers, empty, find}
use esp_ptp.Wifi.Peers.Slots.{IsUnique}
use esp_ptp.Wifi.Peers.Registry.{IsValid}
use esp_ptp.Wifi.Peers.Reconcile.{listed, difference, reconcile}
use esp_ptp.Wifi.Peers.Reconcile.Only.{IsRefused, reconcile_only}

abbrev station : Bytes
station = 2 ∷ 0 ∷ 0 ∷ 0 ∷ 0 ∷ 1 ∷ []

abbrev other_station : Bytes
other_station = 2 ∷ 0 ∷ 0 ∷ 0 ∷ 0 ∷ 2 ∷ []

abbrev nobody : Peers
nobody = record {
  generation = 5;
  radio_boot = 0;
  radio_generation = 0;
  reconciled_generation = 0;
  unreported = false;
  entries = replicate 16 empty;
}

nobody-IsValid : IsValid nobody
unfolding IsUnique
nobody-IsValid = (
  refl,
  (
    inl refl,
    (
      inl refl,
      (
        inl refl,
        (
          inl refl,
          (
            inl refl,
            (
              inl refl,
              (
                inl refl,
                (
                  inl refl,
                  (
                    inl refl,
                    (
                      inl refl,
                      (
                        inl refl,
                        (inl refl, (inl refl, (inl refl, (inl refl, (inl refl, omega arith))))),
                      ),
                    ),
                  ),
                ),
              ),
            ),
          ),
        ),
      ),
    ),
  ),
  omega arith,
)

abbrev message : CapableMessage
message = record { source_port = zeros 10; log_interval = pos 0 }

abbrev request : IntervalMessage
request = record {
  source_port = zeros 10;
  log_link_delay = neg 128;
  log_sync = neg 128;
  log_announce = neg 128;
  flags = 0;
}

abbrev first_slot : ℕ
first_slot = 0

abbrev old_association : ℕ
old_association = 5

reconcile_only_example :
    let (p', ok) = reconcile nobody 1 1 (station ∷ []) in
    (ok ≡ false) × (p' ≡ nobody) × IsRefused nobody 1 1 (station ∷ [])
    ⊎ (ok ≡ true)
      × ((listed (station ∷ []) other_station ≡ true) ⊎ (find p'.entries other_station ≡ none))
      × (p'.reconciled_generation ≡ p'.generation)
      × ((p' ≡ nobody) × (nobody.radio_boot ≡ 1) × (difference 1 nobody.radio_generation ≡ 0)
          ⊎ ((p'.radio_boot ≡ 1) × (p'.radio_generation ≡ 1))
            × ((nobody.radio_boot ≢ 1)
                ⊎ (0 < difference 1 nobody.radio_generation)
                  × (difference 1 nobody.radio_generation < 2 ^ 31)))
reconcile_only_example = reconcile_only nobody 1 1 (station ∷ []) other_station (nobody-IsValid)
