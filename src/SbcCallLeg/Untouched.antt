-- ===== src/SbcCallLeg/Untouched.antt =====
-- src/SBCCallLeg.cpp: without a CDR the handlers that end a call leave the record that was handed over.
use sems_yeti.Prelude.{ℕ, ◌≡◌, ◌∙◌, false, List, [], ◌∷◌, refl, arith}
use sems_yeti.Prelude.Classes.{Text}
use sems_yeti.Codes.{Env}
use sems_yeti.SbcCallLeg.Ending.{Side, Shared, on_early_bye, note_reply, note_reinvite}
use sems_yeti.SbcCallLeg.Failing.{disconnect_code, on_status, on_disconnected}
use sems_yeti.SbcCallLeg.Causes.{
  Happening, bye, other_bye, rtp_silent, torn_down, other_excepted, failed, remote_gone, excepted,
  reply_excepted, status_changed, Event, handle, run,
}
use sems_yeti.SbcCallLeg.Recorded.{
  on_status-Kept, on_call_status_change-leaves, handle-has_cdr, note_reply-has_cdr,
}

module _ {Details Carried : Type 0} (env : Env) where
  on_early_bye-gone :
      (side : Side) (s : Shared Details Carried)
      → s.has_cdr ≡ false
      → (on_early_bye side s).0.ctx.cdr ≡ s.ctx.cdr
  unfolding on_early_bye
  on_early_bye-gone side s n = ground arith

  note_reply-gone :
      (code : ℕ) (reason : Text) (side : Side) (s : Shared Details Carried)
      → s.has_cdr ≡ false
      → (note_reply code reason side s).ctx.cdr ≡ s.ctx.cdr
  unfolding note_reply
  note_reply-gone code reason side s n = ground arith

  note_reinvite-gone :
      (side : Side) (s : Shared Details Carried)
      → s.has_cdr ≡ false
      → (note_reinvite side s).ctx.cdr ≡ s.ctx.cdr
  unfolding note_reinvite
  note_reinvite-gone side s n = ground arith

  on_disconnected-gone :
      (code : ℕ) (side : Side) (s : Shared Details Carried)
      → s.has_cdr ≡ false
      → (on_disconnected env code side s).0.ctx.cdr ≡ s.ctx.cdr
  unfolding on_disconnected
  on_disconnected-gone code side s n = ground arith

  handle-gone :
      (w : Happening) (side : Side) (s : Shared Details Carried)
      → s.has_cdr ≡ false
      → (handle env w side s).0.ctx.cdr ≡ s.ctx.cdr
  unfolding handle
  handle-gone bye side s n = let early = on_early_bye-gone side s n in ground arith
  handle-gone other_bye side s n = ground arith
  handle-gone rtp_silent side s n = ground arith
  handle-gone torn_down side s n = ground arith
  handle-gone (remote_gone code reason) side s n =
      let replied = note_reply-gone code reason side s n in
      let has = note_reply-has_cdr env code reason side s ∙ n in
      let reinvited = note_reinvite-gone side (note_reply code reason side s) has in ground arith
  handle-gone (excepted code reason) side s n = ground arith
  handle-gone other_excepted side s n = ground arith
  handle-gone failed side s n = ground arith
  handle-gone (reply_excepted r e) side s n = ground arith
  handle-gone (status_changed cause) side s n =
      let kept = on_status-Kept env side s in
      let ended =
        on_disconnected-gone (disconnect_code s.rang_too_long cause) side (on_status side s).0
          (ground (arith, kept)) in
      rw (on_call_status_change-leaves env cause side s) (ground arith)

  -- Once the record was handed over, nothing changes it.
  pub run-gone :
      (es : List Event) (s : Shared Details Carried)
      → s.has_cdr ≡ false
      → (run env es s).0.ctx.cdr ≡ s.ctx.cdr
  unfolding run
  run-gone [] s n = refl
  run-gone (e ∷ es) s n =
      let has = handle-has_cdr env e.what e.side s in
      let gone = handle-gone e.what e.side s n in
      run-gone es (handle env e.what e.side s).0 (ground arith) ∙ gone
