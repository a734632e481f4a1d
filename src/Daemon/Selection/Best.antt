-- ===== src/Daemon/Selection/Best.antt =====
-- Which source Daemon.Selection selects.
use esp_ptp.Base.{
  ◌%◌, ◌≤◌, true, false, ◌≡◌, refl, ap, ◌∙◌, ◌≢◌, ◌⊎◌, inl, inr, some, [], arith, Option-cases,
  length, take,
}
use esp_ptp.Base.Bytes.{Bytes, byte, zeros, byte-take}
use esp_ptp.Base.Bytes.{slice-take}
use mathlib.Core.Path.{ap₂}
use esp_ptp.Message.PathTrace.{Trace, parse, member, max_clocks}
use esp_ptp.Message.PathTrace.Parse.{parse_sound}
use esp_ptp.Daemon.Rank.{is_better_clock}
use esp_ptp.Daemon.Selection.{
  State, Options, Received, announce_length, announced, process_announce, compare_source,
  select_source, drop_source, bind_announcer, same_port, restart_receipt, switch_source, learn_mac,
  update_delay_asymmetry,
}
use esp_ptp.Daemon.Snapshot.{invalidate}

-- The source is empty or better than this clock, and its path has at most sixteen clocks and not this
-- one.
pub record IsSource (s : State) : Type 0 where
  pub better :
      (byte s.selected_source 0 % 16 ≢ 11)
      ⊎ (is_better_clock (announced s.selected_source) s.own_identity ≡ true)
  pub path_short : length s.selected_path ≤ max_clocks
  pub path_open : member s.own_identity.sourceidentity s.selected_path ≡ false

-- Fields that only the selection of a source writes.
abbrev pub SameSource : State → State → Type 0
SameSource s s' =
    (s'.selected_source ≡ s.selected_source)
    × (s'.selected_source_valid ≡ s.selected_source_valid)
    × (s'.selected_path ≡ s.selected_path)
    × (s'.own_identity ≡ s.own_identity)
    × (s'.timing ≡ s.timing)
    × (s'.gptp ≡ s.gptp)

bind_announcer-SameSource : (s : State) (r : Received) → SameSource s (bind_announcer s r).0
unfolding bind_announcer
bind_announcer-SameSource s r = ground arith

select_source_result :
    (o : Options) (s : State) (r : Received) (path : Trace)
    → let s' = select_source o s r path in
      (s'.selected_source ≡ take announce_length r.message)
      × (s'.selected_path ≡ path)
      × (s'.own_identity ≡ s.own_identity)
      × (s'.selected_source_valid ≡ s.selected_source_valid)
      × (s'.last_selected_announce ≡ s.last_received_announce)
unfolding select_source restart_receipt switch_source learn_mac update_delay_asymmetry
select_source_result o s r path = ground arith

announced-take : (m : Bytes) → announced (take announce_length m) ≡ announced m
unfolding announced
announced-take m =
    rw
      (
        byte-take 64 m 47 (omega arith),
        byte-take 64 m 52 (omega arith),
        slice-take 64 m 48 4 (omega arith),
        slice-take 64 m 53 8 (omega arith),
        slice-take 64 m 61 2 (omega arith),
        slice-take 64 m 20 8 (omega arith),
        slice-take 64 m 28 2 (omega arith),
      )
      refl

-- The source is dropped, for an Announce of its own port that is no better than this clock.
abbrev pub IsDropped : State → Received → State → Type 0
IsDropped s r s' =
    (same_port s r.message ≡ true)
    × (is_better_clock (announced r.message) s.own_identity ≡ false)
    × (s'.selected_source ≡ zeros announce_length)
    × (s'.selected_source_valid ≡ false)
    × (s'.selected_path ≡ [])
    × (s'.own_identity ≡ s.own_identity)
    × (s'.timing ≡ invalidate s.timing)

-- The message becomes the source, and is better than this clock and than another port's valid source.
abbrev pub IsSelected : State → Received → Trace → State → Type 0
IsSelected s r path s' =
    (is_better_clock (announced r.message) s.own_identity ≡ true)
    × ((same_port s r.message ≡ true)
        ⊎ (s.selected_source_valid ≡ false)
        ⊎ (is_better_clock (announced r.message) (announced s.selected_source) ≡ true))
    × (s'.selected_source ≡ take announce_length r.message)
    × (s'.selected_path ≡ path)
    × (s'.own_identity ≡ s.own_identity)
    × (s'.selected_source_valid ≡ s.selected_source_valid)

compare_source_result :
    (o : Options) (s : State) (r : Received) (path : Trace)
    → let s' = compare_source o s r path in
      SameSource s s' ⊎ IsDropped s r s' ⊎ IsSelected s r path s'
unfolding compare_source drop_source
compare_source_result o s r path = ground (arith, select_source_result o s r path)

abbrev pub IsOutcome : State → Received → Trace → State → Type 0
IsOutcome s r path s' = SameSource s s' ⊎ IsDropped s r s' ⊎ IsSelected s r path s'

IsOutcome-SameSource :
    (s b s' : State) (r : Received) (path : Trace)
    → SameSource s b
    → IsOutcome b r path s'
    → IsOutcome s r path s'
unfolding same_port
IsOutcome-SameSource s b s' r path e (inl h) = inl (ground (arith, e, h))
IsOutcome-SameSource s b s' r path e (inr (inl h)) = inr (inl (ground (arith, e, h)))
IsOutcome-SameSource s b s' r path e (inr (inr h)) = inr (inr (ground (arith, e, h)))

-- An Announce leaves the source as it is, or drops it, where the port of the source now announces a
-- clock no better than this one, or becomes the source. It becomes the source only if its path is well
-- formed and without this clock, if it is better than this clock, and if no valid source of another port
-- is as good.
pub process_announce_result :
    (o : Options) (s : State) (r : Received)
    → let s' = process_announce o s r in
      SameSource s s'
      ⊎ IsDropped s r s'
      ⊎ ((path : Trace) × (parse
              (some r.message)
              (length r.message)
              (some s.own_identity.sourceidentity)
            ≡ some path)
          × IsSelected s r path s')
unfolding process_announce same_port
process_announce_result o s r =
    let own = s.own_identity.sourceidentity in
    let b = bind_announcer s r in
    let kept = bind_announcer-SameSource s r in
    elim (Option-cases (parse (some r.message) (length r.message) (some own))) [
      | inl e ↦ inl (ground (arith, e))
      | inr (path, e) ↦
          let out =
            IsOutcome-SameSource s (record (b.0) { last_received_announce = r.mono })
              (compare_source o (record (b.0) { last_received_announce = r.mono }) r path) r path
              kept
              (compare_source_result o (record (b.0) { last_received_announce = r.mono }) r path) in
          ground (arith, e, kept, out)
    ]

IsSource-same : (s s' : State) → IsSource s → SameSource s s' → IsSource s'
IsSource-same s s' h e =
    let clear : member s'.own_identity.sourceidentity s'.selected_path ≡ false =
      ap₂ (λ a p. member a p) (ap (λ a. a.sourceidentity) e.3) e.2 ∙ h.path_open in
    ground (arith, e, h, clear)

IsSource-dropped : (s s' : State) (r : Received) → IsDropped s r s' → IsSource s'
unfolding member
IsSource-dropped s s' r e = ground (arith, e)

IsSource-selected :
    (s s' : State) (r : Received) (path : Trace)
    → parse (some r.message) (length r.message) (some s.own_identity.sourceidentity) ≡ some path
    → IsSelected s r path s'
    → IsSource s'
IsSource-selected s s' r path parsed e =
    let sound =
      parse_sound r.message (length r.message) s.own_identity.sourceidentity
        s.own_identity.sourceidentity path parsed in
    ground (arith, e, sound, announced-take r.message)

-- Every Announce leaves a source that is empty or better than this clock, with a path of at most
-- sixteen clocks that does not contain this clock.
pub process_announce-IsSource :
    (o : Options) (s : State) (r : Received) → IsSource s → IsSource (process_announce o s r)
process_announce-IsSource o s r h = elim (process_announce_result o s r) [
  | inl e ↦ IsSource-same s (process_announce o s r) h e
  | inr (inl e) ↦ IsSource-dropped s (process_announce o s r) r e
  | inr (inr (path, parsed, e)) ↦ IsSource-selected s (process_announce o s r) r path parsed e
]
