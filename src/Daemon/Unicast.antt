-- ===== src/Daemon/Unicast.antt =====
-- Unicast Delay_Req of ptp.c: when a request is sent to the selected source's address.
use esp_ptp.Base.{
  ℕ, ◌+◌, ◌%◌, ◌≤◌, ◌<◌, Bool, true, false, not, ◌||◌, if◌then◌else◌, ◌==◌, leb, ◌≡◌, Option, none,
  some, List, [], ◌∷◌, arith,
}
use esp_ptp.Base.Int.{ℤ, pos, ◌+ℤ◌, lt_ℤ, ◌==ℤ◌}
use esp_ptp.Base.Bytes.{Bytes, byte}

-- PTP_UNICAST_DELAY_REQ_MISSES and PTP_UNICAST_DELAY_REQ_RETRY_US
abbrev pub misses_max : ℕ
misses_max = 3

abbrev pub retry_after_us : ℤ
retry_after_us = pos 60000000

-- The fields unicast_delay_req_* of struct ptp_state_s.
pub record Unicast : Type 0 where
  pub outstanding : Bool
  pub misses : ℕ
  pub retry_us : ℤ

-- ptp_reset_unicast_delay_req
pub reset_unicast : Unicast
reset_unicast = record { outstanding = false; misses = 0; retry_us = pos 0 }

-- The first part of ptp_unicast_delay_req_active: a request that was not answered.
pub count_miss : Unicast → ℤ → Unicast
count_miss u now =
    if not u.outstanding
    then u
    else if leb misses_max (u.misses + 1)
    then record { outstanding = false; misses = 0; retry_us = now +ℤ retry_after_us }
    else record u { outstanding = false; misses = u.misses + 1 }

-- The second part: multicast until the time of the retry.
pub retry : Unicast → ℤ → Unicast × Bool
retry u now =
    if u.retry_us ==ℤ pos 0
    then (u, true)
    else if lt_ℤ now u.retry_us
    then (u, false)
    else (record u { retry_us = pos 0 }, true)

-- ptp_unicast_delay_req_active; `configured` is CONFIG_ESP_PTP_UNICAST_DELAY_REQ, and the address is the
-- selected source's, where it is valid
pub delay_req_active : Bool → Option Bytes → Unicast → ℤ → Unicast × Bool
delay_req_active configured none u now = (u, false)
delay_req_active configured (some mac) u now =
    if not configured || byte mac 0 % 2 == 1 then (u, false) else retry (count_miss u now) now

-- The request is sent; it is outstanding when it went to the source alone.
abbrev pub sent_unicast : Unicast → Unicast
sent_unicast u = record u { outstanding = true }

-- The polls of a source that never answers: the times at which requests are sent, and whether each is
-- sent to the source alone.
pub unanswered : Bytes → Unicast → List ℤ → Unicast × List Bool
unanswered mac u [] = (u, [])
unanswered mac u (now ∷ times) =
    let (u', unicast) = delay_req_active true (some mac) u now in
    let (u'', rest) = unanswered mac (if unicast then sent_unicast u' else u') times in
    (u'', unicast ∷ rest)

-- A source that answers none of three requests is asked by multicast from the fourth poll on, until
-- sixty seconds after it, when it is asked by unicast again.
pub unanswered_fallback :
    (mac : Bytes) (a b c d e f : ℕ)
    → byte mac 0 % 2 ≡ 0
    → e < d + 60000000
    → d + 60000000 ≤ f
    → (unanswered mac reset_unicast (pos a ∷ pos b ∷ pos c ∷ pos d ∷ pos e ∷ pos f ∷ [])).1
      ≡ true ∷ true ∷ true ∷ false ∷ false ∷ true ∷ []
unfolding unanswered delay_req_active count_miss retry reset_unicast ◌+ℤ◌
unanswered_fallback mac a b c d e f h l m = ground arith
