-- ===== src/SbcCallLeg/FirstCause.antt =====
-- src/SBCCallLeg.cpp: what any sequence of the events that end a call leaves in the CDR.
use sems_yeti.Prelude.{
  ◌≡◌, ◌∙◌, sym, refl, ap, inl, inr, Bool, true, false, List, [], ◌∷◌, ◌++◌, Bool-cases,
  if◌then◌else◌,
}
use sems_yeti.Prelude.Int.{pos}
use sems_yeti.Codes.{Env, translate_db_code}
use sems_yeti.Cdr.{Cdr}
use sems_yeti.Cdr.Updates
use sems_yeti.Cdr.Updates.{
  Update, internal_in, bleg_in, aleg_in, told_in, internal_of, bleg_of, told_of, first, last,
  or_own, run_reasons,
}
use sems_yeti.CallCtx.{CallCtx, get_override_id}
use sems_yeti.SbcCallLeg.Ending.{Side, Shared}
use sems_yeti.SbcCallLeg.Causes.{Happening, Event, handle, run, says, closes, said, translations}
use sems_yeti.SbcCallLeg.Recorded.{handle-cdr, handle-has_cdr, handle-Same}
use sems_yeti.SbcCallLeg.Untouched.{run-gone}

module _ {Details Carried : Type 0} where
  same-get_override_id :
      (a_leg : Bool) (ctx ctx' : CallCtx Details Carried)
      → ctx'.current ≡ ctx.current
      → get_override_id a_leg ctx' ≡ get_override_id a_leg ctx
  unfolding get_override_id
  same-get_override_id a_leg ctx ctx' e = rw e refl

  updates_run-++ :
      (us vs : List Update) (cdr : Cdr Details Carried)
      → Updates.run (us ++ vs) cdr ≡ Updates.run vs (Updates.run us cdr)
  unfolding Updates.run
  updates_run-++ [] vs cdr = refl
  updates_run-++ (u ∷ us) vs cdr = updates_run-++ us vs (Updates.apply u cdr)

module _ {Details Carried : Type 0} (env : Env) where
  handle-translations :
      (w : Happening) (side : Side) (s : Shared Details Carried)
      → translations env (handle env w side s).0 ≡ translations env s
  handle-translations w side s = λ i code a_leg.
      let id = get_override_id a_leg s.ctx in
      let s' = (handle env w side s).0 in
      let (current, rang, same) = handle-Same env code id w side s in
      (ap (λ k. (translate_db_code env code k s'.translator).1)
            (same-get_override_id a_leg s.ctx s'.ctx current)
          ∙ same)
        i

  -- The record as the updates leave it, wherever it is then.
  run-said :
      (es : List Event) (s : Shared Details Carried)
      → s.has_cdr ≡ true
      → (run env es s).0.ctx.cdr
        ≡ Updates.run (said (translations env s) s.rang_too_long es) s.ctx.cdr
  unfolding run Updates.run
  run-said [] s h = refl
  run-said (e ∷ es) s h =
      let s' = (handle env e.what e.side s).0 in
      let mine =
        if e.side.has_ctx then says (translations env s) s.rang_too_long e.what e.side else [] in
      let has = handle-has_cdr env e.what e.side s in
      let told = handle-cdr env e.what e.side s h in
      let (current, rang, same) = handle-Same env 0 (pos 0) e.what e.side s in
      elim (Bool-cases (closes e.what e.side)) [
        | inl c ↦
            run-gone env es s' (has ∙ rw (h, c) refl)
            ∙ told
            ∙ rw c (sym (updates_run-++ mine [] s.ctx.cdr))
        | inr o ↦
            run-said es s' (has ∙ rw (h, o) refl)
            ∙ ap (λ tr. Updates.run (said tr s'.rang_too_long es) s'.ctx.cdr)
                (handle-translations e.what e.side s)
            ∙ ap (λ r. Updates.run (said (translations env s) r es) s'.ctx.cdr) rang
            ∙ ap (Updates.run (said (translations env s) s.rang_too_long es)) told
            ∙ rw o
                (sym (updates_run-++ mine (said (translations env s) s.rang_too_long es) s.ctx.cdr))
      ]

  -- For any sequence of BYEs, RTP timeouts, teardowns, lost peers, exceptions, failures and changes of status on
  -- both legs of a call, from a CDR that is neither written nor has a reason yet: the internal reason of
  -- the CDR, with the initiator and the code, is the first one that the table of the events gives, the
  -- reason of the second leg is the first one that the table gives for that leg, and what the caller is
  -- told is the last one that it gives for the caller's leg or else the last internal one. What comes
  -- behind an early BYE of the callee, which hands the CDR over, does not count.
  pub first_cause :
      (es : List Event) (s : Shared Details Carried)
      → s.has_cdr ≡ true
      → s.ctx.cdr.writed ≡ false
      → s.ctx.cdr.disconnect_initiator_writed ≡ false
      → s.ctx.cdr.bleg_reason_writed ≡ false
      → s.ctx.cdr.aleg_reason_writed ≡ false
      → (internal_of (run env es s).0.ctx.cdr
          ≡ or_own
              (first internal_in (said (translations env s) s.rang_too_long es))
              (internal_of s.ctx.cdr))
        × (bleg_of (run env es s).0.ctx.cdr
            ≡ or_own
                (first bleg_in (said (translations env s) s.rang_too_long es))
                (bleg_of s.ctx.cdr))
        × (told_of (run env es s).0.ctx.cdr
            ≡ or_own (last aleg_in (said (translations env s) s.rang_too_long es)) (
                or_own
                  (last told_in (said (translations env s) s.rang_too_long es))
                  (told_of s.ctx.cdr)))
  first_cause es s h w i b a =
      let us = said (translations env s) s.rang_too_long es in
      let (internal, bleg, told) = run_reasons us s.ctx.cdr w i b a in
      let same = run-said es s h in
      (ap internal_of same ∙ internal, ap bleg_of same ∙ bleg, ap told_of same ∙ told)
