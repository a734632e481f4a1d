-- ===== src/Wifi/Peers/Messages.antt =====
-- Messages of stations, and what a new association leaves of the one before it.
use esp_ptp.Base.Bytes.{Bytes}
use esp_ptp.Wifi.Peers.{Peers}
