-- ===== src/SbcCallLeg/Ending.antt =====
-- src/SBCCallLeg.cpp: the handlers of both legs that end a call, with the CDR and the translator that the legs
-- share. What a leg reads of its own is the record Side; what it does behind the CDR is a list of Act. The
-- lines for the log are left out.
use sems_yeti.Prelude.{ℕ, Bool, true, false, not, ◌&&◌, List, [], ◌∷◌, ◌++◌, if◌then◌else◌, map}
use sems_yeti.Prelude.Int.{ℤ}
use sems_yeti.Prelude.Classes.{Text, codes}
use sems_yeti.Codes.{Translator, Translation, Env, translate_db_code}
use sems_yeti.Cdr.{
  Cdr, by_ts, by_dst, by_org, update_internal_reason, update_aleg_reason, update_bleg_reason,
  write_cdr,
}
use sems_yeti.CallCtx.{CallCtx, get_override_id}
use sems_yeti.CallLeg.{CallStatus, connected}

-- The status of the dialog, as far as it is told apart.
pub data DialogStatus : Type 0 where
  early_dialog connected_dialog disconnecting_dialog other_dialog : DialogStatus

-- `StatusChangeCause`; `none_given` stands for a null pointer.
pub data ReplyCause : Type 0 where
  none_given : ReplyCause
  reply_with : ℕ → Bool → ReplyCause

pub data Cause : Type 0 where
  sip_reply : ReplyCause → Cause
  sip_request canceled no_ack no_prack rtp_timeout session_timeout internal_error other : Cause

-- The timers that are removed.
pub data Timer : Type 0 where
  radius_interim fake_ringing ringing_timeout : Timer

-- `base` is the handler of the class CallLeg, which ends the call.
pub data Act (Details Carried : Type 0) : Type 0 where
  written : Cdr Details Carried → Act Details Carried
  base : Act Details Carried
  reply_ok : Act Details Carried
  terminate_leg : Act Details Carried
  stop_call : Act Details Carried
  wake_up : Act Details Carried
  relay_error : ℕ → Text → Act Details Carried
  relay_exception : ℤ → Text → Act Details Carried
  remove_timer : Timer → Act Details Carried
  set_timer : Timer → ℤ → Act Details Carried
  mute_bleg : Act Details Carried
  unmute_bleg : Act Details Carried
  radius_stop : Cdr Details Carried → Act Details Carried
  radius_stopped : Act Details Carried
  disconnected_hook : Act Details Carried

-- What a leg reads when it handles an event. `has_ctx` says that its pointer `call_ctx` is set.
pub record Side : Type 0 where
  pub a_leg : Bool
  pub has_ctx : Bool
  pub status : CallStatus
  pub dialog : DialogStatus
  pub has_other : Bool
  pub local_tag : Text
  pub global_tag : Text
  pub call_id : Text
  pub ring_for : ℤ
  pub fake_ring_for : ℤ
  pub one_way_early_media : Bool
  pub has_media : Bool
  pub now : ℕ

-- What the legs share: `has_cdr` says that `call_ctx->cdr` is set. The record stays here as it was handed over
-- when the pointer was reset.
pub record Shared (Details Carried : Type 0) : Type 0 where
  pub ctx : CallCtx Details Carried
  pub has_cdr : Bool
  pub translator : Translator
  pub rang_too_long : Bool
  pub bleg_early_media_muted : Bool

abbrev pub Ended : Type 0 → Type 0 → Type 0
Ended Details Carried = Shared Details Carried × List (Act Details Carried)

abbrev pub is_connected : CallStatus → Bool
is_connected connected = true
is_connected _ = false

module _ {Details Carried : Type 0} where
  -- `with_cdr_for_read`
  abbrev pub with_cdr :
      (Cdr Details Carried → Cdr Details Carried) → Shared Details Carried → Shared Details Carried
  with_cdr f s = if s.has_cdr then record s { ctx = record (s.ctx) { cdr = f s.ctx.cdr } } else s

  -- The translation by the policy of a leg, and the translator with its statistics.
  abbrev pub translated : Env → ℕ → Bool → Shared Details Carried → Translator × Translation
  translated env code a_leg s =
      translate_db_code env code (get_override_id a_leg s.ctx) s.translator

  -- A BYE in a leg that is not connected; a reply is sent for the second leg alone.
  unfoldable pub on_early_bye : Side → Shared Details Carried → Ended Details Carried
  on_early_bye side s =
      let cancelled =
        with_cdr
          (λ cdr. update_bleg_reason (codes "Cancel") 487 (
            update_aleg_reason (codes "EarlyBye") 200
              (update_internal_reason by_org (codes "EarlyBye") 500 side.now cdr)))
          s in
      let refused = with_cdr (update_bleg_reason (codes "EarlyBye") 200) s in
      if side.a_leg
      then (cancelled, base ∷ [])
      else (refused, if s.has_cdr then reply_ok ∷ terminate_leg ∷ [] else base ∷ [])

  -- `onBye`
  unfoldable pub on_bye : Side → Shared Details Carried → Ended Details Carried
  unfolding on_early_bye
  on_bye side s =
      let ended =
        with_cdr
          (λ cdr. update_bleg_reason (codes "Bye") 200 (
            update_internal_reason (if side.a_leg then by_org else by_dst) (codes "Bye") 200
              side.now cdr))
          s in
      if not side.has_ctx
      then (s, [])
      else (if is_connected side.status then (ended, base ∷ []) else on_early_bye side s)

  -- `onOtherBye`: an early BYE of the callee closes the record.
  unfoldable pub on_other_bye : Side → Shared Details Carried → Ended Details Carried
  on_other_bye side s =
      let closed =
        with_cdr
          (λ cdr.
            update_aleg_reason (codes "Request terminated") 487
              (update_internal_reason by_dst (codes "EarlyBye") 500 side.now cdr))
          s in
      if side.has_ctx && side.a_leg && not (is_connected side.status) && s.has_cdr
      then (
        record closed { has_cdr = false },
        map written (write_cdr true closed.ctx.cdr) ++ base ∷ [],
      )
      else (s, base ∷ [])

  -- `onRtpTimeoutOverride`, in a connected leg; 125 is DC_RTP_TIMEOUT. `base` is CallLeg::onRtpTimeout().
  unfoldable pub on_rtp_timeout : Env → Side → Shared Details Carried → Ended Details Carried
  on_rtp_timeout env side s =
      let (t, tr) = translated env 125 side.a_leg s in
      let ended =
        with_cdr
          (λ cdr. update_bleg_reason (codes "Bye") 200 (
            update_aleg_reason (codes "Bye") 200
              (update_internal_reason by_ts tr.internal_reason tr.internal_code side.now cdr)))
          (record s { translator = t }) in
      if side.has_ctx && is_connected side.status then (ended, base ∷ []) else (s, [])

  -- `onTearDown`
  unfoldable pub on_tear_down : Side → Shared Details Carried → Ended Details Carried
  on_tear_down side s =
      let ended =
        with_cdr
          (λ cdr. update_bleg_reason (codes "Bye") 200 (
            update_aleg_reason (codes "Bye") 200
              (update_internal_reason by_ts (codes "Teardown") 200 side.now cdr)))
          s in
      (if side.has_ctx then ended else s, [])

  -- `onRemoteDisappeared`, by the reply to a re-INVITE: in the caller's leg, and behind that when connected.
  unfoldable pub note_reply : ℕ → Text → Side → Shared Details Carried → Shared Details Carried
  note_reply code reason side s =
      if side.a_leg then with_cdr (update_internal_reason by_ts reason code side.now) s else s

  unfoldable pub note_reinvite : Side → Shared Details Carried → Shared Details Carried
  note_reinvite side s =
      let failed =
        with_cdr
          (λ cdr.
            update_bleg_reason (codes "Bye") 200
              (update_internal_reason by_ts (codes "reINVITE failed") 200 side.now cdr))
          s in
      if is_connected side.status then failed else s

  unfoldable pub on_remote_disappeared :
      ℕ → Text → Side → Shared Details Carried → Ended Details Carried
  unfolding note_reply note_reinvite
  on_remote_disappeared code reason side s =
      (if side.has_ctx then note_reinvite side (note_reply code reason side s) else s, base ∷ [])
