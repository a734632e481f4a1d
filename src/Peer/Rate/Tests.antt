-- ===== src/Peer/Rate/Tests.antt =====
-- A neighbour whose clock stands still, and an instance of the theorem on it.
use esp_ptp.Base.{ℕ, ◌*◌, ◌/◌, ◌^◌, true, false, ◌≡◌, refl, inl, arith}
use esp_ptp.Base.Int.{ℤ, pos, pos_part, ◌+ℤ◌, ◌-ℤ◌, ◌*ℤ◌, lt_ℤ, le_ℤ, quot}
use esp_ptp.Base.Bytes.{same, zeros}
use esp_ptp.Daemon.Samples.{at_second}
use esp_ptp.Peer.Rate.{
  Double, Rate, measured, local_interval, peer_elapsed, elapsed_double, is_plausible, zero_double,
  rate_update, continue_rate, fail_interval, anchor,
}
use esp_ptp.Peer.Rate.Laws.{Sample, IsRate, Fails, next, four_failures}

-- Thousandths of whole numbers, in place of double.
abbrev thousandths : Double ℤ
thousandths = record {
  of_int = λ n. n *ℤ pos 1000;
  decimal = λ n e. pos (n * 1000 / 10 ^ e);
  add = λ a b. a +ℤ b;
  sub = λ a b. a -ℤ b;
  mul = λ a b. quot (a *ℤ b) (pos 1000);
  div = λ a b. quot (a *ℤ pos 1000) b;
  at_most = λ a b. le_ℤ a b;
  less = λ a b. lt_ℤ a b;
  is_finite = λ a. true;
  round = λ a. quot a (pos 1000);
  to_uint32 = λ a. pos_part (quot a (pos 1000));
}

-- The rate was 1 until the last sample, at 10 s.
abbrev steady : Rate ℤ
steady = record {
  lifecycle = 1;
  responder = zeros 10;
  anchored = true;
  valid = true;
  reanchor = false;
  remote_previous = at_second 10;
  local_previous = at_second 10;
  correction_previous = pos 0;
  ratio = pos 1000;
  updates = 5;
  outliers = 0;
}

-- The neighbour's time remains 10 s.
abbrev stuck : ℕ → Sample ℤ
stuck n = record { remote = at_second 10; correction = pos 0; local = at_second n }

steady-IsRate : IsRate thousandths steady
unfolding is_plausible
steady-IsRate = inl (refl, refl, omega arith)

four_failures_example :
    (next thousandths
      (next thousandths
        (next thousandths (next thousandths steady (stuck 11)) (stuck 12))
        (stuck 13))
      (stuck 14)).valid
    ≡ false
unfolding Fails next rate_update continue_rate fail_interval anchor measured local_interval
    peer_elapsed elapsed_double is_plausible zero_double same ◌+ℤ◌ ◌-ℤ◌ ◌*ℤ◌
four_failures_example =
    four_failures thousandths steady (stuck 11) (stuck 12) (stuck 13) (stuck 14) steady-IsRate
      (refl, refl) (refl, refl) (refl, refl) (refl, refl)
