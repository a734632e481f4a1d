-- ===== src/Daemon/Selection/Tests.antt =====
-- A first Announce, and instances of the theorems on the selection.
use esp_ptp.Base.{true, false, ◌≡◌, refl, ◌⊎◌, inl, none, some, List, [], ◌∷◌, arith, length}
use esp_ptp.Base.Int.{pos}
use esp_ptp.Message.PathTrace.{Trace, parse, member}
use esp_ptp.Daemon.Samples.{at_second, unselected, announce_bytes}
use esp_ptp.Daemon.Selection.{
  State, Options, Received, announced, process_announce, select_source, wifi_ftm,
}
use esp_ptp.Daemon.Selection.Best.{
  IsSource, SameSource, IsDropped, IsSelected, process_announce_result, process_announce-IsSource,
}
use esp_ptp.Daemon.Selection.Valid.{Event, announce, turn}

abbrev options : Options
options = record {
  time64 = true;
  priority_tag = false;
  sync_interval_ms = 125;
  announce_interval_ms = 1000;
  timeout_ms = 3000;
}

abbrev received : Received
received = record {
  message = announce_bytes;
  source_mac = none;
  association = 0;
  mono = at_second 10;
  now_us = pos 10000000;
}

-- With the source that the Announce gives.
abbrev selected : State
selected = select_source options unselected received []

unselected-IsSource : IsSource unselected
unfolding announced member
unselected-IsSource = record {
  better = inl (λ e. omega (arith, e));
  path_short = omega arith;
  path_open = refl;
}

process_announce_result_example :
    let s' = process_announce options unselected received in
    SameSource unselected s'
    ⊎ IsDropped unselected received s'
    ⊎ ((path : Trace) × (parse
            (some received.message)
            (length received.message)
            (some unselected.own_identity.sourceidentity)
          ≡ some path)
        × IsSelected unselected received path s')
process_announce_result_example = process_announce_result options unselected received

process_announce-IsSource_example : IsSource (process_announce options unselected received)
process_announce-IsSource_example =
    process_announce-IsSource options unselected received (unselected-IsSource)

-- A Wi-Fi station that selects the source.
abbrev station : State
station = record unselected { medium = wifi_ftm; last_received_announce = at_second 10 }

abbrev with_source : State
with_source = select_source options station received []

-- The loop finds the source valid, and the same Announce comes again.
abbrev later : List Event
later = turn (at_second 10) (pos 10000000) ∷ announce received ∷ []
