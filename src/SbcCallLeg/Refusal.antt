-- ===== src/SbcCallLeg/Refusal.antt =====
-- src/SBCCallLeg.cpp: the handlers that end an attempt of a call: the refusal by a callee, the shutdown of
-- the server and the end of the leg.
use mathlib.Core.Option
use sems_yeti.Prelude.{
  ℕ, ◌-◌, ◌==◌, Bool, true, false, not, ◌&&◌, List, [], ◌∷◌, ◌++◌, Option, none, some,
  if◌then◌else◌, map, is_nil,
}
use sems_yeti.Prelude.Classes.{Text, text_eq, codes}
use sems_yeti.Codes.{rewrite_response, stop_hunting}
use sems_yeti.Cdr.{
  BlegReply, by_ts, by_dst, update_internal_reason, update_aleg_reason, update_bleg_reason,
  update_with_sip_reply, write_cdr,
}
use sems_yeti.CallCtx.{Profile, get_override_id}
use sems_yeti.SbcCallLeg.{
  Effect, written, callee, remove_fake_ringing, Outside, Ask, Leg, Step, put_cdr, note_ts,
  give_back,
}
use sems_yeti.SbcCallLeg.Hunting.{choose_next_profile}

-- A final reply of a callee; the code is in `net`.
pub record Refused : Type 0 where
  pub net : BlegReply
  pub reason : Text
  pub from_tag : Text
  pub local_reply : Bool

-- What `connectCalleeRequest` does with the profile: it starts a callee, or throws an InternalException with
-- its internal reason and code, or another exception.
pub data Connect : Type 0 where
  started : Connect
  internal_exception : Text → ℕ → Text → ℕ → Connect
  exception : Text → ℕ → Connect

-- `answer` is the reply's code and reason as they are left, `threw` what the handler throws.
pub record Handled (Details Carried : Type 0) : Type 0 where
  pub leg : Leg Details Carried
  pub effects : List (Effect Details Carried)
  pub answer : ℕ × Text
  pub threw : Option (ℕ × Text)

module _ {Details Carried : Type 0} (out : Outside Details) where
  -- The reply is noted in the CDR and translated by the policies of both legs; whether hunting stops.
  unfoldable pub note_refusal :
      Refused → Leg Details Carried → Leg Details Carried × (ℕ × Text) × Bool
  unfolding rewrite_response stop_hunting update_internal_reason update_aleg_reason
      update_bleg_reason update_with_sip_reply get_override_id
  note_refusal r leg =
      let code = r.net.code in
      let bleg = get_override_id false leg.ctx in
      let aleg = get_override_id true leg.ctx in
      let (t, (mid_code, mid_reason)) = rewrite_response code r.reason bleg leg.translator in
      let (t', (code', reason')) = rewrite_response mid_code mid_reason aleg t in
      let (t'', stop) = stop_hunting code bleg t' in
      let cdr = update_aleg_reason reason' code' (
        update_internal_reason (if r.local_reply then by_ts else by_dst) mid_reason mid_code out.now
          (update_bleg_reason r.reason code (update_with_sip_reply r.net out.now leg.ctx.cdr))) in
      (put_cdr cdr (record leg { translator = t'' }), (code', reason'), stop)

  -- The new profile `p` is there: its timer, and the new callee.
  unfoldable pub try_profile :
      Connect → (ℕ × Text) → Leg Details Carried → Profile Details → Handled Details Carried
  unfolding update_internal_reason
  try_profile connect answer leg p =
      let limit = out.time_limit p.details in
      let timed = if limit == 0 then leg else record leg { duration_timer = some limit } in
      elim connect [
        | started ↦ record {
          leg = timed;
          effects = callee (leg.call_profile) ∷ [];
          answer = answer;
          threw = none;
        }
        | internal_exception reason code reply_reason reply_code ↦ record {
          leg = note_ts out reason code timed;
          effects = [];
          answer = answer;
          threw = some (reply_code, reply_reason);
        }
        | exception reason code ↦ record {
          leg = timed;
          effects = [];
          answer = answer;
          threw = some (code, reason);
        }
      ]

  -- With the profiles from the iterator on.
  unfoldable pub try_callee :
      Connect → (ℕ × Text) → Leg Details Carried → List (Profile Details) → Handled Details Carried
  unfolding try_profile
  try_callee connect answer leg [] = record {
    leg = leg;
    effects = [];
    answer = answer;
    threw = none;
  }
  try_callee connect answer leg (p ∷ rest) = try_profile connect answer leg p

  abbrev pub prepend :
      List (Effect Details Carried) → Handled Details Carried → Handled Details Carried
  prepend es h = record h { effects = es ++ h.effects }

  -- Behind chooseNextProfile.
  unfoldable pub chosen_next :
      Connect
      → (ℕ × Text)
      → List (Effect Details Carried)
      → Bool × Step Details Carried
      → Handled Details Carried
  unfolding try_callee
  chosen_next connect answer es (true, (leg, es')) =
      prepend (es ++ es') (try_callee connect answer leg leg.ctx.current)
  chosen_next connect answer es (false, (leg, es')) = record {
    leg = leg;
    effects = es ++ es';
    answer = answer;
    threw = none;
  }

  -- `onBLegRefused` from "continue hunting" on, with the profiles from the iterator on, of which there is
  -- one; `none` if the loop over the profiles ran out of fuel.
  unfoldable pub go_on_hunting :
      Bool
      → (ℕ → Ask)
      → Connect
      → (ℕ × Text)
      → Leg Details Carried
      → List (Profile Details)
      → Option (Handled Details Carried)
  unfolding give_back choose_next_profile chosen_next
  go_on_hunting could_post asks connect answer leg [] =
      some (record { leg = leg; effects = []; answer = answer; threw = none })
  go_on_hunting could_post asks connect answer leg (p ∷ rest) =
      let (given, es) = give_back could_post p.resource_handler leg in
      if not leg.has_initial_invite
      then some (record { leg = given; effects = es; answer = answer; threw = none })
      else Option.map (chosen_next connect answer es) (choose_next_profile out asks given)

  -- `onBLegRefused`
  unfoldable pub on_bleg_refused :
      Refused → Bool → (ℕ → Ask) → Connect → Leg Details Carried → Option (Handled Details Carried)
  unfolding note_refusal go_on_hunting
  on_bleg_refused r could_post asks connect leg =
      let unchanged : Handled Details Carried = record {
        leg = leg;
        effects = [];
        answer = (r.net.code, r.reason);
        threw = none;
      } in
      let cleared = record leg { duration_timer = none } in
      let (noted, answer, stop) = note_refusal r cleared in
      let stopped : Handled Details Carried = record {
        leg = noted;
        effects = remove_fake_ringing ∷ [];
        answer = answer;
        threw = none;
      } in
      let hunted = go_on_hunting could_post asks connect answer noted noted.ctx.current in
      if not leg.a_leg
      then some unchanged
      else (if not (is_nil leg.other_id) && not (text_eq r.from_tag leg.other_id)
          then some unchanged
          else (if not leg.has_ctx
              then some (record unchanged { leg = cleared; effects = remove_fake_ringing ∷ [] })
              else (if stop then some stopped else elim hunted [
                | none ↦ none
                | some h ↦ some (prepend (remove_fake_ringing ∷ []) h)
              ])))

  -- `onServerShutdown`
  unfoldable pub on_server_shutdown : Bool → Leg Details Carried → Step Details Carried
  unfolding give_back update_internal_reason
  on_server_shutdown could_post leg =
      let noted = note_ts out (codes "ServerShutdown") 200 leg in
      if leg.has_ctx
      then give_back could_post leg.call_profile.resource_handler noted
      else (leg, [])

-- `onBeforeDestroy`, without the recorder and the sequencer of HTTP requests: the last leg of the call
-- gives the resources back and writes the CDR.
module _ {Details Carried : Type 0} where
  unfoldable pub release_last :
      Bool → Leg Details Carried → List (Profile Details) → Step Details Carried
  unfolding give_back
  release_last could_post leg [] = (leg, map written (write_cdr true leg.ctx.cdr))
  release_last could_post leg (p ∷ rest) =
      let (given, es) = give_back could_post p.resource_handler leg in
      (given, es ++ map written (write_cdr true leg.ctx.cdr))

  unfoldable pub on_before_destroy : Bool → Leg Details Carried → Step Details Carried
  unfolding release_last
  on_before_destroy could_post leg =
      let left = record leg { references = leg.references - 1; has_ctx = false } in
      if not leg.has_ctx
      then (leg, [])
      else (if left.references == 0
          then release_last could_post left left.ctx.current
          else (left, []))
