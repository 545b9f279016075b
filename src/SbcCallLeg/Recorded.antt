-- ===== src/SbcCallLeg/Recorded.antt =====
-- src/SBCCallLeg.cpp: what each handler that ends a call leaves in the CDR, as a list of updates.
use sems_yeti.Prelude.{◌∙◌, ℕ, ◌==◌, ◌≡◌, true, not, ◌&&◌, [], ◌∷◌, arith, if◌then◌else◌}
use sems_yeti.Prelude.Int.{ℤ}
use sems_yeti.Prelude.Classes.{Text, codes}
use sems_yeti.Codes.{Env, Translator, translate_db_code}
use sems_yeti.CallCtx.{get_override_id}
use sems_yeti.Cdr.{
  update_internal_reason, update_aleg_reason, update_bleg_reason, update_with_sip_reply,
  update_init_aleg, by_ts,
}
use sems_yeti.Cdr.Updates
use sems_yeti.Cdr.Updates.{
  Update, internal, bleg, aleg, sip_reply, missing_aleg, internal_in, bleg_in, aleg_in, told_in,
  internal_of, bleg_of, told_of, first, last, or_own, run_reasons,
}
use sems_yeti.SbcCallLeg.Ending.{
  Cause, Side, Shared, is_connected, on_early_bye, on_remote_disappeared, note_reply, note_reinvite,
}
use sems_yeti.SbcCallLeg.Failing.{
  is_disconnected, disconnect_code, on_call_status_change, on_status, on_disconnected,
}
use sems_yeti.SbcCallLeg.Causes.{
  Happening, bye, other_bye, rtp_silent, torn_down, other_excepted, failed, remote_gone, excepted,
  reply_excepted, status_changed, handle, by_code, says, closes, translations,
}

translate_db_code-again :
    (env : Env) (code code' : ℕ) (id id' : ℤ) (t : Translator)
    → (translate_db_code env code id (translate_db_code env code' id' t).0).1
      ≡ (translate_db_code env code id t).1
unfolding translate_db_code
translate_db_code-again env code code' id id' t = ground arith

module _ {Details Carried : Type 0} (env : Env) where
  -- What the legs share, but for the media of the second leg.
  abbrev Kept : Shared Details Carried → Shared Details Carried → Type 0
  Kept s s' =
      (s'.ctx ≡ s.ctx)
      × (s'.has_cdr ≡ s.has_cdr)
      × (s'.translator ≡ s.translator)
      × (s'.rang_too_long ≡ s.rang_too_long)

  pub on_status-Kept : (side : Side) (s : Shared Details Carried) → Kept s (on_status side s).0
  unfolding on_status
  on_status-Kept side s = ground arith

  pub on_call_status_change-leaves :
      (cause : Cause) (side : Side) (s : Shared Details Carried)
      → (on_call_status_change env cause side s).0 ≡ (
          if is_disconnected side.status && side.has_ctx && s.has_cdr
          then (on_disconnected env
              (disconnect_code s.rang_too_long cause)
              side
              (on_status side s).0).0
          else (on_status side s).0)
  unfolding on_call_status_change
  on_call_status_change-leaves cause side s = ground arith

  on_disconnected-cdr :
      (code : ℕ) (side : Side) (s : Shared Details Carried)
      → s.has_cdr ≡ true
      → (on_disconnected env code side s).0.ctx.cdr
        ≡ Updates.run
            (if not (code == 0) then by_code (translations env s) code side ∷ [] else [])
            s.ctx.cdr
  unfolding on_disconnected Updates.run Updates.apply update_internal_reason update_aleg_reason
      update_bleg_reason update_with_sip_reply update_init_aleg
  on_disconnected-cdr code side s h = ground arith

  status_changed-cdr :
      (cause : Cause) (side : Side) (s : Shared Details Carried)
      → s.has_cdr ≡ true
      → (on_call_status_change env cause side s).0.ctx.cdr
        ≡ Updates.run
            (if side.has_ctx
              then says (translations env s) s.rang_too_long (status_changed cause) side
              else [])
            s.ctx.cdr
  unfolding Updates.run
  status_changed-cdr cause side s h =
      let kept = on_status-Kept side s in
      let code = disconnect_code s.rang_too_long cause in
      let noted = on_disconnected-cdr code side (on_status side s).0 (ground (arith, kept)) in
      rw (on_call_status_change-leaves cause side s) (ground arith)

  pub note_reply-has_cdr :
      (code : ℕ) (reason : Text) (side : Side) (s : Shared Details Carried)
      → (note_reply code reason side s).has_cdr ≡ s.has_cdr
  unfolding note_reply
  note_reply-has_cdr code reason side s = ground arith

  note_reinvite-has_cdr :
      (side : Side) (s : Shared Details Carried) → (note_reinvite side s).has_cdr ≡ s.has_cdr
  unfolding note_reinvite
  note_reinvite-has_cdr side s = ground arith

  note_reply-cdr :
      (code : ℕ) (reason : Text) (side : Side) (s : Shared Details Carried)
      → s.has_cdr ≡ true
      → (note_reply code reason side s).ctx.cdr
        ≡ Updates.run
            (if side.a_leg then internal by_ts reason code side.now ∷ [] else [])
            s.ctx.cdr
  unfolding note_reply Updates.run Updates.apply update_internal_reason update_aleg_reason
      update_bleg_reason update_with_sip_reply update_init_aleg
  note_reply-cdr code reason side s h = ground arith

  note_reinvite-cdr :
      (side : Side) (s : Shared Details Carried)
      → s.has_cdr ≡ true
      → (note_reinvite side s).ctx.cdr
        ≡ Updates.run
            (if is_connected side.status
              then internal by_ts (codes "reINVITE failed") 200 side.now
                ∷ bleg (codes "Bye") 200
                ∷ []
              else [])
            s.ctx.cdr
  unfolding note_reinvite Updates.run Updates.apply update_internal_reason update_aleg_reason
      update_bleg_reason update_with_sip_reply update_init_aleg
  note_reinvite-cdr side s h = ground arith

  remote_gone-cdr :
      (code : ℕ) (reason : Text) (side : Side) (s : Shared Details Carried)
      → s.has_cdr ≡ true
      → (on_remote_disappeared code reason side s).0.ctx.cdr
        ≡ Updates.run
            (if side.has_ctx
              then says (translations env s) s.rang_too_long (remote_gone code reason) side
              else [])
            s.ctx.cdr
  unfolding on_remote_disappeared Updates.run
  remote_gone-cdr code reason side s h =
      let replied = note_reply-cdr code reason side s h in
      let has = note_reply-has_cdr code reason side s ∙ h in
      let reinvited = note_reinvite-cdr side (note_reply code reason side s) has in ground arith

  pub handle-cdr :
      (w : Happening) (side : Side) (s : Shared Details Carried)
      → s.has_cdr ≡ true
      → (handle env w side s).0.ctx.cdr
        ≡ Updates.run
            (if side.has_ctx then says (translations env s) s.rang_too_long w side else [])
            s.ctx.cdr
  unfolding handle Updates.run Updates.apply update_internal_reason update_aleg_reason
      update_bleg_reason update_with_sip_reply update_init_aleg
  handle-cdr bye side s h = ground arith
  handle-cdr other_bye side s h = ground arith
  handle-cdr rtp_silent side s h = ground arith
  handle-cdr torn_down side s h = ground arith
  handle-cdr (remote_gone code reason) side s h = remote_gone-cdr code reason side s h
  handle-cdr (excepted code reason) side s h = ground arith
  handle-cdr other_excepted side s h = ground arith
  handle-cdr failed side s h = ground arith
  handle-cdr (reply_excepted r e) side s h = ground arith
  handle-cdr (status_changed cause) side s h = status_changed-cdr cause side s h

  pub handle-has_cdr :
      (w : Happening) (side : Side) (s : Shared Details Carried)
      → (handle env w side s).0.has_cdr ≡ (s.has_cdr && not (closes w side))
  unfolding handle
  handle-has_cdr bye side s = ground arith
  handle-has_cdr other_bye side s = ground arith
  handle-has_cdr rtp_silent side s = ground arith
  handle-has_cdr torn_down side s = ground arith
  handle-has_cdr (remote_gone code reason) side s =
      let replied = note_reply-has_cdr code reason side s in
      let reinvited = note_reinvite-has_cdr side (note_reply code reason side s) in ground arith
  handle-has_cdr (excepted code reason) side s = ground arith
  handle-has_cdr other_excepted side s = ground arith
  handle-has_cdr failed side s = ground arith
  handle-has_cdr (reply_excepted r e) side s = ground arith
  handle-has_cdr (status_changed cause) side s =
      let kept = on_status-Kept side s in
      rw (on_call_status_change-leaves cause side s) (unfold on_disconnected in ground arith)

  -- What the meaning of an event depends on.
  abbrev pub Same : ℕ → ℤ → Shared Details Carried → Shared Details Carried → Type 0
  Same code id s s' =
      (s'.ctx.current ≡ s.ctx.current)
      × (s'.rang_too_long ≡ s.rang_too_long)
      × ((translate_db_code env code id s'.translator).1
          ≡ (translate_db_code env code id s.translator).1)

  on_early_bye-Same :
      (code : ℕ) (id : ℤ) (side : Side) (s : Shared Details Carried)
      → Same code id s (on_early_bye side s).0
  unfolding on_early_bye
  on_early_bye-Same code id side s = ground arith

  on_disconnected-Same :
      (code : ℕ) (id : ℤ) (cause : ℕ) (side : Side) (s : Shared Details Carried)
      → Same code id s (on_disconnected env cause side s).0
  unfolding on_disconnected
  on_disconnected-Same code id cause side s =
      let again =
        translate_db_code-again env code cause id (get_override_id side.a_leg s.ctx) s.translator in
      ground (arith, again)

  note_reply-Same :
      (code : ℕ) (id : ℤ) (c : ℕ) (reason : Text) (side : Side) (s : Shared Details Carried)
      → Same code id s (note_reply c reason side s)
  unfolding note_reply
  note_reply-Same code id c reason side s = ground arith

  note_reinvite-Same :
      (code : ℕ) (id : ℤ) (side : Side) (s : Shared Details Carried)
      → Same code id s (note_reinvite side s)
  unfolding note_reinvite
  note_reinvite-Same code id side s = ground arith

  pub handle-Same :
      (code : ℕ) (id : ℤ) (w : Happening) (side : Side) (s : Shared Details Carried)
      → Same code id s (handle env w side s).0
  unfolding handle
  handle-Same code id bye side s = let early = on_early_bye-Same code id side s in ground arith
  handle-Same code id other_bye side s = ground arith
  handle-Same code id rtp_silent side s =
      let again =
        translate_db_code-again env code 125 id (get_override_id side.a_leg s.ctx) s.translator in
      ground (arith, again)
  handle-Same code id torn_down side s = ground arith
  handle-Same code id (remote_gone c reason) side s =
      let replied = note_reply-Same code id c reason side s in
      let reinvited = note_reinvite-Same code id side (note_reply c reason side s) in ground arith
  handle-Same code id (excepted c reason) side s = ground arith
  handle-Same code id other_excepted side s = ground arith
  handle-Same code id failed side s = ground arith
  handle-Same code id (reply_excepted r e) side s = ground arith
  handle-Same code id (status_changed cause) side s =
      let kept = on_status-Kept side s in
      let ended =
        on_disconnected-Same code id (disconnect_code s.rang_too_long cause) side
          (on_status side s).0 in
      rw (on_call_status_change-leaves cause side s) (ground arith)
