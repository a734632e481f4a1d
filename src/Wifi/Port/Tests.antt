-- ===== src/Wifi/Port/Tests.antt =====
-- An instance of the theorem on the ports of associations.
use esp_ptp.Base.{ℕ, ◌≡◌, refl}
use esp_ptp.Wifi.Port.{association_port}

abbrev one : ℕ
one = 1

abbrev two : ℕ
two = 2

abbrev three : ℕ
three = 3

abbrev fifteen : ℕ
fifteen = 15

second_slot : association_port 2 3 1 ≡ 19
unfolding association_port
second_slot = refl
