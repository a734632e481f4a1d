-- ===== src/Schedule/Announce/Tests.antt =====
-- Instances of the theorems on the Announce schedule.
use esp_ptp.Base.{ℕ, true, false, ◌≡◌, refl, ◌≢◌, inl, none, arith}
use esp_ptp.Base.Int.{pos, ◌-ℤ◌}
use esp_ptp.Schedule.Announce.{
  Grant, blank, announce_request, announce_begin, announce_finish, announce_reset, initialize,
  refresh, begin_fresh, start, outstanding, effective_period, period_us,
}
use esp_ptp.Schedule.Announce.Laws.{
  IsValid, IsRate, Started, announce_request-IsValid, announce_begin-Started,
  announce_reset_retires,
}
use esp_ptp.Schedule.Timing.{unusable}

blank-IsValid : IsValid blank
blank-IsValid = record {
  rate = inl (refl, refl, refl);
  few = omega arith;
  slower = inl refl;
  serial_word = omega arith;
  revision_word = omega arith;
  last = inl refl;
  next_fits = omega arith;
}

abbrev first_revision : ℕ
first_revision = 0

abbrev first_grant : Grant
first_grant = record { token = 1; advertised = pos 0; sequence_number = 1 }

announce_request-IsValid_example : IsValid (announce_request blank (pos 0) (pos 2)).0
announce_request-IsValid_example = announce_request-IsValid blank (pos 0) (pos 2) (blank-IsValid)

announce_begin-Started_example :
    (blank.revision ≡ first_revision)
    × IsRate (pos 0)
    × Started blank
        (announce_begin blank true (pos 0) first_revision 1 (pos 7)).0
        first_grant
        (pos 7)
unfolding announce_begin initialize effective_period period_us refresh begin_fresh outstanding start
    unusable ◌-ℤ◌
announce_begin-Started_example =
    announce_begin-Started blank true (pos 0) first_revision 1 (pos 7) first_grant (blank-IsValid)
      refl

announce_reset_retires_example :
    let t = announce_reset blank in
    (announce_finish t 3 true (pos 7) ≡ (t, false))
    × (announce_begin t true (pos 0) blank.revision 1 (pos 7) ≡ (t, none))
    × (t.serial ≡ blank.serial)
    × (t.sequence ≡ blank.sequence)
    × (t.revision ≢ 0)
announce_reset_retires_example =
    announce_reset_retires blank 3 true true (pos 0) 1 (pos 7) (omega arith)
