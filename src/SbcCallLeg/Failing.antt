-- ===== src/SbcCallLeg/Failing.antt =====
-- src/SBCCallLeg.cpp: the handlers of both legs that end a call by a failure or with a change of its status.
use sems_yeti.Prelude.{ℕ, ◌==◌, Bool, true, false, not, ◌&&◌, [], ◌∷◌, ◌++◌, if◌then◌else◌, is_nil}
use sems_yeti.Prelude.Int.{ℤ, pos, negsuc}
use sems_yeti.Prelude.Words.{bits}
use sems_yeti.Prelude.Classes.{Text, codes}
use sems_yeti.Sequences.{is_zero}
use sems_yeti.Codes.{Env}
use sems_yeti.Cdr.{
  Cdr, BlegReply, by_ts, update_internal_reason, update_aleg_reason, update_bleg_reason,
  update_with_sip_reply, update_init_aleg,
}
use sems_yeti.CallLeg.{CallStatus, disconnected, no_reply, ringing, connected, disconnecting}
use sems_yeti.SbcCallLeg.Ending.{
  Cause, ReplyCause, none_given, reply_with, sip_reply, no_ack, no_prack, session_timeout,
  internal_error, early_dialog, connected_dialog, disconnecting_dialog, other_dialog, terminate_leg,
  stop_call, wake_up, relay_error, relay_exception, radius_interim, fake_ringing, ringing_timeout,
  remove_timer, set_timer, mute_bleg, unmute_bleg, radius_stop, radius_stopped, disconnected_hook,
  Side, Shared, Ended, is_connected, with_cdr, translated,
}

-- The codes and reasons of an InternalException.
pub record Failed : Type 0 where
  pub internal_reason : Text
  pub internal_code : ℕ
  pub response_reason : Text
  pub response_code : ℕ

-- The internal code of a cause, 0 without one: DC_TRANSACTION_TIMEOUT, DC_RINGING_TIMEOUT, DC_NO_ACK,
-- DC_NO_PRACK, DC_SESSION_TIMEOUT and DC_INTERNAL_ERROR.
abbrev pub reply_code : Bool → ReplyCause → ℕ
reply_code rang none_given = 0
reply_code rang (reply_with code local) =
    if code == 408 && local then 130 else (if code == 487 && rang then 1505 else 0)

abbrev pub disconnect_code : Bool → Cause → ℕ
disconnect_code rang (sip_reply r) = reply_code rang r
disconnect_code rang no_ack = 126
disconnect_code rang no_prack = 127
disconnect_code rang session_timeout = 128
disconnect_code rang internal_error = 129
disconnect_code rang _ = 0

abbrev pub is_positive : ℤ → Bool
is_positive (pos n) = not (n == 0)
is_positive (negsuc n) = false

abbrev pub is_disconnected : CallStatus → Bool
is_disconnected disconnected = true
is_disconnected _ = false

module _ {Details Carried : Type 0} where
  -- The switch over the status of the dialog, for the reason of the leg itself.
  unfoldable pub note_dialog : Side → Cdr Details Carried → Cdr Details Carried
  note_dialog side cdr =
      let note = λ (reason : Text) (code : ℕ).
        if side.a_leg
        then update_aleg_reason reason code cdr
        else update_bleg_reason reason code cdr in
      elim side.dialog [
        | connected_dialog ↦ note (codes "Bye") 200
        | disconnecting_dialog ↦ note (codes "Bye") 200
        | early_dialog ↦ note (codes "Request terminated") 487
        | other_dialog ↦ cdr
      ]

  -- `onException`
  unfoldable pub on_exception : ℤ → Text → Side → Shared Details Carried → Ended Details Carried
  unfolding note_dialog
  on_exception code reason side s =
      let noted =
        with_cdr
          (λ cdr. note_dialog side (update_internal_reason by_ts reason (bits code) side.now cdr))
          s in
      (if side.has_ctx then noted else s, relay_exception code reason ∷ terminate_leg ∷ [])

  -- `onOtherException`
  unfoldable pub on_other_exception : Side → Shared Details Carried → Ended Details Carried
  unfolding note_dialog
  on_other_exception side s =
      (if side.has_ctx then with_cdr (note_dialog side) s else s, terminate_leg ∷ wake_up ∷ [])

  -- `onFailure`
  unfoldable pub on_failure : Side → Shared Details Carried → Ended Details Carried
  on_failure side s =
      let noted =
        with_cdr
          (λ cdr.
            let failed = update_internal_reason by_ts (codes "Generic Failure") 503 side.now cdr in
            if is_nil failed.local_tag
            then update_init_aleg side.local_tag side.global_tag side.call_id failed
            else failed)
          s in
      (
        if side.a_leg && side.has_ctx then noted else s,
        relay_exception (pos 503) (codes "Generic Failure") ∷ terminate_leg ∷ [],
      )

  -- `terminateLegOnReplyException`
  unfoldable pub terminate_leg_on_reply_exception :
      BlegReply → Failed → Side → Shared Details Carried → Ended Details Carried
  terminate_leg_on_reply_exception r e side s =
      let noted =
        with_cdr
          (λ cdr.
            update_with_sip_reply r side.now
              (update_internal_reason by_ts e.internal_reason e.internal_code side.now cdr))
          s in
      let ends = if is_connected side.status then stop_call else terminate_leg in
      if side.has_ctx
      then (
        if side.has_other then noted else s,
        relay_error e.response_code e.response_reason ∷ ends ∷ [],
      )
      else (s, [])

  -- The switch over the status: timers and the media of the second leg.
  unfoldable pub on_status : Side → Shared Details Carried → Ended Details Carried
  on_status side s =
      let fake = if not (is_zero side.fake_ring_for) then remove_timer fake_ringing ∷ [] else [] in
      let mutes = side.one_way_early_media && side.has_ctx && side.has_media in
      let unmutes = side.has_ctx && s.bleg_early_media_muted && side.has_media in
      elim side.status [
        | ringing ↦
            if not side.a_leg
            then (
              s,
              if is_positive side.ring_for
                  then set_timer ringing_timeout side.ring_for ∷ []
                  else [],
            )
            else (if mutes
                then (record s { bleg_early_media_muted = true }, fake ++ mute_bleg ∷ [])
                else (s, fake))
        | connected ↦ (
          s,
          if not side.a_leg
              then remove_timer ringing_timeout ∷ []
              else fake ++ (if unmutes then unmute_bleg ∷ [] else []),
        )
        | disconnected ↦ (s, remove_timer radius_interim ∷ (if side.a_leg then fake else []))
        | no_reply ↦ (s, [])
        | disconnecting ↦ (s, [])
      ]

  -- The end of `onCallStatusChange` in a leg that is disconnected, with the record.
  unfoldable pub on_disconnected : Env → ℕ → Side → Shared Details Carried → Ended Details Carried
  on_disconnected env code side s =
      let (t, tr) = translated env code side.a_leg s in
      let noted =
        with_cdr (update_internal_reason by_ts tr.internal_reason tr.internal_code side.now)
          (record s { translator = t }) in
      let s' = if code == 0 then s else noted in
      (
        s',
        radius_stop s'.ctx.cdr
            ∷ radius_stopped
            ∷ (if side.a_leg then disconnected_hook ∷ [] else []),
      )

  -- `onCallStatusChange`
  unfoldable pub on_call_status_change :
      Env → Cause → Side → Shared Details Carried → Ended Details Carried
  unfolding on_status on_disconnected
  on_call_status_change env cause side s =
      let (s', acts) = on_status side s in
      let (ended, acts') = on_disconnected env (disconnect_code s.rang_too_long cause) side s' in
      let ends = is_disconnected side.status && side.has_ctx && s.has_cdr in
      if ends then (ended, acts ++ acts') else (s', acts)
