-- ===== src/Daemon/Delay/Tests.antt =====
-- A measurement of a fresh neighbour, and instances of the theorems on the delay.
use esp_ptp.Base.{ℕ, ◌*◌, ◌/◌, ◌^◌, true, false, ◌≡◌, refl, ◌≢◌, ◌⊎◌, List, [], ◌∷◌, ◌++◌}
use esp_ptp.Base.Int.{ℤ, pos, pos_part, ◌+ℤ◌, ◌-ℤ◌, ◌*ℤ◌, lt_ℤ, le_ℤ, ◌≤ℤ◌, quot}
use esp_ptp.Base.Bytes.{zeros}
use esp_ptp.Peer.Wire.{FollowUp, no_header, no_follow_up}
use esp_ptp.Peer.Wire.{no_time, no_response}
use esp_ptp.Peer.Exchange.{Measurement, blank}
use esp_ptp.Peer.Rate.{Double, fresh}
use esp_ptp.Daemon.Samples.{clock_a, clock_b}
use esp_ptp.Daemon.Unicast.{reset_unicast}
use esp_ptp.Daemon.Delay.{Options, State, measure, has_types}
use esp_ptp.Daemon.Delay.Measure.{IsValidDelay, measure_qualified}

-- Thousandths of whole numbers, in place of double.
abbrev thousandths : Double ℤ
thousandths = record {
  of_int = λ n. n *ℤ pos 1000;
  decimal = λ n e. pos (n * 1000 / 10 ^ e);
  add = λ a b. a +ℤ b;
  sub = λ a b. a -ℤ b;
  mul = λ a b. quot (a *ℤ b) (pos 1000);
  div = λ a b. quot (a *ℤ pos 1000) b;
  at_most = λ a b. le_ℤ a b;
  less = λ a b. lt_ℤ a b;
  is_finite = λ a. true;
  round = λ a. quot a (pos 1000);
  to_uint32 = λ a. pos_part (quot a (pos 1000));
}

abbrev options : Options
options = record {
  time64 = true;
  average_count = 8;
  max_path_delay_ns = 100000;
  max_peer_delay_ns = 100000;
}

abbrev delays : List (ℕ × ℤ)
delays = (3, pos 400) ∷ []

abbrev state : State ℤ
state = record {
  gptp = true;
  peer_exchange = record blank { generation = 1 };
  peer_rate = fresh thousandths 1 (clock_b ++ (0 ∷ 1 ∷ []));
  peer_capability = record { lifecycle = 0; received_us = pos 0; qualified = false };
  pdelay_multi_responder = false;
  peer_delay_ns = pos 0;
  peer_delay_avgcount = 0;
  path_delay_ns = pos 0;
  path_delay_avgcount = 0;
  delay_asymmetry_ns = pos 0;
  last_delta_ns = pos 0;
  delay_req_seq = 0;
  delayreq_time = no_time;
  delayreq_interval_ms = 1000;
  next_delayreq_interval_ms = 1000;
  unicast = reset_unicast;
  selected_source_valid = false;
  selected_identity = zeros 8;
  own_identity = clock_a;
  own_port = 0 ∷ 1 ∷ [];
}

abbrev measurement : Measurement
measurement = record {
  generation = 1;
  lifecycle = 0;
  transmit = no_time;
  receive = no_time;
  response = no_response;
}

abbrev follow_up : FollowUp
follow_up = record no_follow_up {
  header = record no_header { sourceidentity = clock_b; sourceportindex = 0 ∷ 1 ∷ [] };
}

measure_qualified_example :
    let s' = measure thousandths options state measurement follow_up (pos 5000) in
    (s' ≡ state)
    ⊎ (s'.peer_capability.lifecycle ≡ measurement.lifecycle)
      × (s'.peer_capability.received_us ≡ pos 5000)
      × (state.peer_exchange.generation ≡ measurement.generation)
      × (state.peer_exchange.multiple ≡ false)
      × ((s'.peer_capability.qualified ≡ false)
          ⊎ (s'.peer_delay_ns ≤ℤ pos 800)
            × (s'.peer_rate.valid ≡ true)
            × (has_types thousandths measurement follow_up ≡ true)
            × (follow_up.header.sourceidentity ≢ state.own_identity)
            × IsValidDelay thousandths options s'.peer_rate measurement follow_up)
measure_qualified_example =
    measure_qualified thousandths options state measurement follow_up (pos 5000) refl
