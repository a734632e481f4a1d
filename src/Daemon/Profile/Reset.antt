-- ===== src/Daemon/Profile/Reset.antt =====
-- What the reset for a profile in Daemon.Profile leaves of earlier work.
use esp_ptp.Base.{false, ◌≡◌, List, [], ◌∷◌}
use esp_ptp.Wifi.Peers.{Peer}
use esp_ptp.Daemon.Profile.{Port}

-- Nothing is under way at a station: no message is pending, and none that signalled its capability is
-- valid.
abbrev pub IsIdlePeer : Peer → Type 0
IsIdlePeer p =
    (p.transmit.pending ≡ 0)
    × (p.announce.pending ≡ 0)
    × (p.capable.valid ≡ false)
    × (p.sync.stopped ≡ false)

abbrev pub AllIdle : List Peer → Type 0
AllIdle [] = Unit
AllIdle (p ∷ ps) = IsIdlePeer p × AllIdle ps

-- Nothing is under way at a port.
abbrev pub IsIdlePort : Port → Type 0
IsIdlePort p =
    (p.capable_receive.valid ≡ false)
    × (p.wired_capable.bound ≡ false)
    × (p.wired_capable.transmit.pending ≡ 0)
    × (p.wifi_neighbor.transmit.pending ≡ 0)
    × AllIdle p.wifi_peers.entries

abbrev pub AllPortsIdle : List Port → Type 0
AllPortsIdle [] = Unit
AllPortsIdle (p ∷ ps) = IsIdlePort p × AllPortsIdle ps
