-- ===== src/SbcCallLeg/Admission.antt =====
-- src/SBCCallLeg.cpp: `processResourcesAndSdp`, by which the first profile of a call gets its resources, or
-- one that it fails over to.
use mathlib.Core.Option
use sems_yeti.Prelude.{
  ℕ, zero, suc, ◌==◌, Bool, true, false, not, List, [], ◌∷◌, ◌++◌, Option, none, some,
  if◌then◌else◌, length,
}
use sems_yeti.Prelude.Classes.{Text, codes}
use sems_yeti.Sequences.{is_zero}
use sems_yeti.Control.{CtlResponse, ctl_ok, ctl_next, ctl_reject, ctl_error}
use sems_yeti.Codes.{Translation, translate_db_code}
use sems_yeti.Cdr.{update_internal_reason, update_with_resource_list}
use sems_yeti.CallCtx.{Profile, get_override_id}
use sems_yeti.SbcCallLeg.{
  Outside, Ask, Leg, Step, unset_config, note_failed, next_profile, check_and_refuse,
  translate_resource, note_ts, take_resources, give_back,
}
use sems_yeti.SbcCallLeg.Hunting.{Hunt, asked, then_step, use_profile}
use sems_yeti.SbcCallLeg.Refusal.{Connect, started, internal_exception, exception}

-- The codes that `processSdpOffer` and `filterSdpOffer` return for the profile, what `onRoutingReady` does,
-- and SIP_REPLY_NOT_ACCEPTABLE_HERE.
pub record Processing : Type 0 where
  pub offer : ℕ
  pub bleg_offer : ℕ
  pub routing : Connect
  pub not_acceptable : Text

-- An exception: InternalException with its translation, or AmSession::Exception.
pub data Thrown : Type 0 where
  internal : Translation → Thrown
  plain : ℕ → Text → Thrown

-- The end of the loop, and an attempt: resources, an answer without them, an exception, or the next round.
pub data Round (Details Carried : Type 0) : Type 0 where
  granted refused : Hunt Details Carried → Round Details Carried
  throws : Hunt Details Carried → Thrown → Round Details Carried
  again : Hunt Details Carried → Round Details Carried

module _ {Details Carried : Type 0} (out : Outside Details) where
  -- A translated answer of the resources, noted in the CDR and thrown.
  unfoldable pub throw_resource : Hunt Details Carried → Hunt Details Carried × Thrown
  unfolding translate_resource update_internal_reason
  throw_resource h =
      let (step, t) = translate_resource out h.config h.rli h.leg in
      let h' = then_step out h step in
      (
        record h' { leg = note_ts out t.internal_reason t.internal_code h'.leg },
        plain t.response_code t.response_reason,
      )

  -- The next profile has come: it may refuse.
  unfoldable pub accept_next :
      Hunt Details Carried → Option (Profile Details) → Round Details Carried
  unfolding throw_resource check_and_refuse
  accept_next h none =
      throws (then_step out h (note_failed h.rli h.leg)) (plain 503 (codes "no more profiles"))
  accept_next h (some q) =
      let (refusing, t) = throw_resource (then_step out h (note_failed h.rli h.leg)) in
      let (leg, refuses) = check_and_refuse out q h.leg in
      let cdr = leg.ctx.cdr in
      if not (is_zero q.disconnect_code_id)
      then throws refusing t
      else (if refuses
          then throws (record h { leg = leg })
              (plain cdr.disconnect_rewrited_code cdr.disconnect_rewrited_reason)
          else again (record h { leg = leg }))

  -- RES_CTL_NEXT
  unfoldable pub fail_over_early : Hunt Details Carried → Round Details Carried
  unfolding next_profile accept_next
  fail_over_early h =
      let (step, next) = next_profile out true false h.leg in
      accept_next (then_step out h step) next

  -- What follows each answer of `rctl.get`.
  unfoldable pub answered_early : CtlResponse → Hunt Details Carried → Round Details Carried
  unfolding fail_over_early
  answered_early ctl_ok h = granted h
  answered_early ctl_error h = refused h
  answered_early ctl_reject h = refused (then_step out h (note_failed h.rli h.leg))
  answered_early ctl_next h = fail_over_early h

  -- A round of the loop, for the current profile `p`.
  unfoldable pub round :
      Ask → Hunt Details Carried → Profile Details → List (Profile Details) → Round Details Carried
  unfolding take_resources answered_early
  round ask h p rest = let (response, h') = asked out ask h p rest in answered_early response h'

  -- A round at the current profile; at the end of the profiles, `getCurrentResourceList` throws.
  unfoldable pub rounds_at :
      (Hunt Details Carried → Option (Hunt Details Carried × Option Thrown))
      → Ask
      → Hunt Details Carried
      → List (Profile Details)
      → Option (Hunt Details Carried × Option Thrown)
  unfolding round throw_resource
  rounds_at more ask h [] = some (h, some (plain 500 out.env.server_internal_error))
  rounds_at more ask h (p ∷ rest) = elim (round ask h p rest) [
    | granted h' ↦ some (h', none)
    | refused h' ↦ let (noted, t) = throw_resource h' in some (noted, some t)
    | throws h' t ↦ some (h', some t)
    | again h' ↦ more h'
  ]

  -- The loop; `none` if the fuel runs out.
  unfoldable pub rounds :
      ℕ → (ℕ → Ask) → Hunt Details Carried → Option (Hunt Details Carried × Option Thrown)
  unfolding rounds_at
  rounds zero asks h = none
  rounds (suc n) asks h = rounds_at (rounds n asks) (asks n) h h.leg.ctx.current

  -- From the profile that got its resources on, up to `onRoutingReady`.
  unfoldable pub process_profile :
      Processing → Hunt Details Carried → Profile Details → Hunt Details Carried × Option Thrown
  unfolding translate_db_code get_override_id update_with_resource_list
  process_profile sdp h p =
      let leg = use_profile out p h.leg in
      let (t, tr) =
        translate_db_code out.env sdp.offer (get_override_id true leg.ctx) leg.translator in
      let limit = out.time_limit p.details in
      let timed = if limit == 0 then leg else record leg { duration_timer = some limit } in
      let routed : Option Thrown = elim sdp.routing [
        | started ↦ none
        | internal_exception reason code reply_reason reply_code ↦ some (
            internal (record tr {
              internal_reason = reason;
              internal_code = code;
              response_reason = reply_reason;
              response_code = reply_code;
            }))
        | exception reason code ↦ some (plain code reason)
      ] in
      if not (sdp.offer == 0)
      then (record h { leg = record leg { translator = t } }, some (internal tr))
      else (if not (sdp.bleg_offer == 0)
          then (record h { leg = leg }, some (plain 488 sdp.not_acceptable))
          else (record h { leg = timed }, routed))

  -- With the profiles from the iterator on.
  unfoldable pub process_current :
      Processing
      → Hunt Details Carried
      → List (Profile Details)
      → Hunt Details Carried × Option Thrown
  unfolding process_profile
  process_current sdp h [] = (h, none)
  process_current sdp h (p ∷ rest) = process_profile sdp h p

  -- The handlers of the two kinds of exceptions: what the call profile holds is given back, the reason is
  -- noted, and the exception goes on with its code and reason.
  unfoldable pub catch_thrown :
      Bool → Hunt Details Carried × Option Thrown → Step Details Carried × Option (ℕ × Text)
  unfolding give_back update_internal_reason
  catch_thrown could_post (h, none) = ((h.leg, h.effects), none)
  catch_thrown could_post (h, some (internal t)) =
      let (leg, es) = give_back could_post h.leg.call_profile.resource_handler h.leg in
      (
        (note_ts out t.internal_reason t.internal_code leg, h.effects ++ es),
        some (t.response_code, t.response_reason),
      )
  catch_thrown could_post (h, some (plain code reason)) =
      let (leg, es) = give_back could_post h.leg.call_profile.resource_handler h.leg in
      ((note_ts out reason code leg, h.effects ++ es), some (code, reason))

  -- An exception of the loop passes the rest of the function by.
  abbrev pub unless_thrown :
      Processing → Hunt Details Carried × Option Thrown → Hunt Details Carried × Option Thrown
  unless_thrown sdp (h, none) = process_current sdp h h.leg.ctx.current
  unless_thrown sdp (h, some t) = (h, some t)

  -- `processResourcesAndSdp`; the profiles from the iterator on are enough fuel.
  unfoldable pub process_resources_and_sdp :
      (ℕ → Ask)
      → Processing
      → Bool
      → Leg Details Carried
      → Option (Step Details Carried × Option (ℕ × Text))
  unfolding rounds process_current catch_thrown
  process_resources_and_sdp asks sdp could_post leg =
      let begin : Hunt Details Carried = record {
        leg = leg;
        effects = [];
        config = unset_config;
        rli = none;
      } in
      Option.map (λ r. catch_thrown could_post (unless_thrown sdp r))
        (rounds (suc (length leg.ctx.current)) asks begin)
