-- ===== src/Daemon/Profile/Fallback.antt =====
-- When Daemon.Profile falls back to standard PTP.
use esp_ptp.Base.{ℕ, ◌≤◌, ◌<◌, Bool, true, false, ◌≡◌, refl, ◌⊎◌, inl, inr, arith}
use esp_ptp.Base.Int.{ℤ, pos}
use esp_ptp.Peer.Exchange.{expire}
use esp_ptp.Peer.Exchange.Begin.{expire_lost}
use esp_ptp.Daemon.Servo.Jump.{clean_after_step_keeps}
use esp_ptp.Daemon.Selection.{asymmetry_ns}
use esp_ptp.Daemon.Snapshot.{invalidate}
use esp_ptp.Daemon.Profile.{
  Options, State, reset_servo, reset_for_profile, enter_profile, arm_profile_fallback, fall_back,
  expire_exchange, is_dropping, check_profile_fallback,
}

enter_profile_gptp :
    (o : Options) (s : State) (gptp : Bool) → (enter_profile o s gptp).servo.gptp ≡ gptp
unfolding enter_profile reset_for_profile reset_servo
enter_profile_gptp o s gptp =
    (clean_after_step_keeps (record (s.servo) {
      gptp = gptp;
      timing = invalidate s.servo.timing;
      delay_asymmetry_ns = asymmetry_ns o.priority_tag gptp 0 s.negotiated_link_mbps;
      path_delay_ns = pos 0;
      peer_delay_ns = pos 0;
      correction_ns = pos 0;
      can_send_delayreq = false;
    })).0

-- What a change of profile keeps of the fallback's own state.
enter_profile_keeps :
    (o : Options) (s : State) (gptp : Bool)
    → let s' = enter_profile o s gptp in
      (s'.avb_lite_fallback_reason ≡ s.avb_lite_fallback_reason)
      × (s'.gptp_fallback_done ≡ s.gptp_fallback_done)
      × (s'.preferred_gptp ≡ s.preferred_gptp)
      × (s'.bridged ≡ s.bridged)
unfolding enter_profile reset_for_profile
enter_profile_keeps o s gptp = (refl, refl, refl, refl)

fall_back_result :
    (o : Options) (s : State) (reason : ℕ)
    → let s' = fall_back o s reason in
      (s'.servo.gptp ≡ false)
      × (s'.avb_lite_fallback_reason ≡ reason)
      × (s'.gptp_fallback_done ≡ true)
unfolding fall_back
fall_back_result o s reason =
    let set = record s { gptp_fallback_done = true; avb_lite_fallback_reason = reason } in
    let kept = enter_profile_keeps o set false in (enter_profile_gptp o set false, kept.0, kept.1)

-- A check leaves gPTP only in an AVB Lite endpoint that is not a bridge, once, and for one of three
-- reasons, which it records: the peer declared itself an endpoint; nine exchanges or more failed and the
-- receiver did not drop frames in the last ten seconds; more than one clock answered.
pub check_profile_fallback_reason :
    (o : Options) (s : State) (now last_drop : ℤ)
    → s.servo.gptp ≡ true
    → let s' = check_profile_fallback o s now last_drop in
      let lost = (expire s.servo.peer_exchange now).0.lost_responses in
      (s'.servo.gptp ≡ true) × (s'.avb_lite_fallback_reason ≡ s.avb_lite_fallback_reason)
      ⊎ (s'.servo.gptp ≡ false)
        × (o.avb_lite_endpoint ≡ true)
        × (s.bridged ≡ false)
        × (s.gptp_fallback_done ≡ false)
        × (s'.gptp_fallback_done ≡ true)
        × ((s'.avb_lite_fallback_reason ≡ 1) × (s.peer_is_endpoint ≡ true)
            ⊎ (s'.avb_lite_fallback_reason ≡ 2) × (9 ≤ lost) × (is_dropping now last_drop ≡ false)
            ⊎ (s'.avb_lite_fallback_reason ≡ 3) × (s.pdelay_multi_responder ≡ true) × (lost < 9))
unfolding check_profile_fallback expire_exchange
check_profile_fallback_reason o s now last_drop g =
    let released = record (expire_exchange s now) { fallback_held = false } in
    ground (
      arith,
      g,
      fall_back_result o s 1,
      fall_back_result o released 2,
      fall_back_result o released 3,
    )

-- After arming there is no reason to fall back.
arm_lem :
    (o : Options) (s : State)
    → s.preferred_gptp ≡ true
    → let s' = arm_profile_fallback o s in
      (s'.servo.gptp ≡ true)
      × (s'.avb_lite_fallback_reason ≡ 0)
      × (s'.gptp_fallback_done ≡ false)
      × (s'.peer_is_endpoint ≡ false)
      × (s'.pdelay_multi_responder ≡ false)
      × (s'.servo.peer_exchange.lost_responses ≡ 0)
unfolding arm_profile_fallback
arm_lem o s p = ground (arith, p, enter_profile_gptp o s true)

-- A link that comes up returns an instance that is configured for gPTP to it, whatever it had fallen
-- back for, and the check that follows does not fall back again at once.
pub arm_returns :
    (o : Options) (s : State) (now last_drop : ℤ)
    → s.preferred_gptp ≡ true
    → let s' = arm_profile_fallback o s in
      (s'.servo.gptp ≡ true)
      × (s'.avb_lite_fallback_reason ≡ 0)
      × (s'.gptp_fallback_done ≡ false)
      × ((check_profile_fallback o s' now last_drop).servo.gptp ≡ true)
arm_returns o s now last_drop p =
    let armed = arm_lem o s p in
    let s' = arm_profile_fallback o s in
    (
      armed.0,
      armed.1,
      armed.2,
      elim (check_profile_fallback_reason o s' now last_drop armed.0) [
        | inl e ↦ e.0
        | inr e ↦ absurd (ground (arith, e, armed, expire_lost s'.servo.peer_exchange now))
      ],
    )
