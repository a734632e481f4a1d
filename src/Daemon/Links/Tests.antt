-- ===== src/Daemon/Links/Tests.antt =====
-- A station that loses its access point, and an instance of the theorem on events.
use esp_ptp.Base.{true, false, ◌≡◌, ◌⊎◌, [], ◌∷◌, arith}
use esp_ptp.Peer.Exchange.{blank}
use esp_ptp.Wifi.Neighbor.{unassociated}
use esp_ptp.Daemon.Selection.{wifi_ftm, wifi_sta}
use esp_ptp.Daemon.Samples.{no_capability}
use esp_ptp.Daemon.Links.{Port, State, sta_disconnected, ap_stop, port_event}
use esp_ptp.Daemon.Links.Retire.{IsRetired, port_event-IsRetired}

abbrev station : Port
station = record {
  enabled = true;
  link_up = true;
  medium = wifi_ftm;
  wifi_mode = wifi_sta;
  peer_exchange = blank;
  capable_receive = no_capability;
  wifi_neighbor = record (unassociated 4) { associated = true; bssid = 2 ∷ 0 ∷ 0 ∷ 0 ∷ 0 ∷ 1 ∷ [] };
  wifi_peers = record {
    generation = 1;
    radio_boot = 0;
    radio_generation = 0;
    reconciled_generation = 0;
    unreported = false;
    entries = [];
  };
}

abbrev joined : State
joined = record { gptp = true; ports = station ∷ []; generations = 7 ∷ [] }

port_event-IsRetired_example :
    let s' = port_event joined 0 station sta_disconnected in
    (s' ≡ joined)
    ⊎ IsRetired joined s' 0
    ⊎ (station.link_up ≡ false)
      × ((sta_disconnected ≡ sta_disconnected) ⊎ (sta_disconnected ≡ ap_stop))
      × (s'.generations ≡ joined.generations)
port_event-IsRetired_example = port_event-IsRetired joined 0 station sta_disconnected (omega arith)
