-- ===== src/Wifi.antt =====
-- The Wi-Fi transport: the ports of its associations, and who is associated.
pub mod Port
pub mod Media
pub mod Peers
pub mod Neighbor
