-- ===== src/Daemon/TimeBase/Tests.antt =====
-- A time base that is relayed, and instances of the theorems on its fields.
use esp_ptp.Base.{true, false, ◌≡◌, refl, ◌≢◌, ◌⊎◌, [], ◌∷◌, arith}
use esp_ptp.Base.Int.{pos, ◌-ℤ◌, ◌*ℤ◌}
use esp_ptp.Base.Bytes.{same, be16, zeros}
use esp_ptp.Daemon.Samples.{clock_a, clock_b}
use esp_ptp.Daemon.TimeBase.{Inputs, TimeBase, is_relaying, is_changed, fill_gm_fields}
use esp_ptp.Daemon.TimeBase.Laws.{phase_of, fill_all, relay_change, become_btc}

-- The source's indicator is 3, and the clock has jumped by a second.
abbrev inputs : Inputs
inputs = record {
  selected_source_valid = true;
  selected_btc = clock_b;
  own_btc = clock_a;
  upstream_gm_fields = 0 ∷ 3 ∷ zeros 16;
  upstream_gm_fields_valid = true;
  clock_updates = 5;
  clock_steps_ns = pos 1000000000;
}

-- The source is lost.
abbrev lost : Inputs
lost = record inputs { selected_source_valid = false }

abbrev published : TimeBase
published = record {
  gm_fields_own = false;
  own_time_base_indicator = 0;
  published_gm_valid = true;
  published_btc = clock_b;
  published_gm_fields = 0 ∷ 2 ∷ zeros 16;
  published_clock_updates = 4;
  phase_baseline_steps_ns = pos 0;
}

abbrev relayed : TimeBase
relayed = record published { published_gm_fields = 0 ∷ 3 ∷ zeros 16 }

relay_change_example :
    let (s', out) = fill_gm_fields inputs published in
    (inputs.clock_updates ≡ published.published_clock_updates)
      × (out ≡ published.published_gm_fields)
      × (s' ≡ record published { gm_fields_own = false })
    ⊎ (inputs.clock_updates ≢ published.published_clock_updates)
      × (be16 out 0 ≡ be16 inputs.upstream_gm_fields 0)
      × (phase_of out ≡ (inputs.clock_steps_ns -ℤ published.phase_baseline_steps_ns) *ℤ pos 65536)
      × (s'.phase_baseline_steps_ns ≡ inputs.clock_steps_ns)
      × (s'.published_btc ≡ inputs.selected_btc)
unfolding is_relaying is_changed same ◌-ℤ◌
relay_change_example = relay_change inputs published refl refl refl (omega arith) (omega arith)

become_btc_example :
    let (s', out) = fill_gm_fields lost relayed in
    (be16 out 0 ≢ be16 relayed.published_gm_fields 0)
    × (phase_of out ≡ pos 0)
    × (s'.phase_baseline_steps_ns ≡ lost.clock_steps_ns)
    × ((fill_gm_fields lost (fill_all (lost ∷ lost ∷ []) s')).1 ≡ out)
unfolding is_relaying
become_btc_example =
    become_btc lost (lost ∷ lost ∷ []) lost relayed refl refl refl (refl, refl, (refl, refl, tt))
      refl refl (omega arith) refl
