-- ===== src/SbcCallLeg/Hunting.antt =====
-- src/SBCCallLeg.cpp: the choice of the next profile of a call, what a refusal by a callee does, and the
-- resources of the first profile.
use sems_yeti.Prelude.{
  ℕ, zero, suc, Bool, true, false, List, [], ◌∷◌, ◌++◌, Option, none, some, if◌then◌else◌, length,
  map,
}
use sems_yeti.Resource.{Resource}
use sems_yeti.Sequences.{is_zero}
use sems_yeti.Redis.{is_empty}
use sems_yeti.Control.{CtlResponse, ResourceConfig, ctl_ok, ctl_next, ctl_reject, ctl_error}
use sems_yeti.Cdr.{update_internal_reason, update_with_resource_list}
use sems_yeti.CallCtx.{Profile}
use sems_yeti.SbcCallLeg.{
  Effect, Outside, Ask, Leg, Step, unset_config, left_at, put_cdr, note_failed, next_profile,
  check_and_refuse, translate_resource, note_ts, take_resources,
}

-- How the loop over the profiles stands: at the current profile, with what the last attempt has left.
pub record Hunt (Details Carried : Type 0) : Type 0 where
  pub leg : Leg Details Carried
  pub effects : List (Effect Details Carried)
  pub config : ResourceConfig
  pub rli : Option Resource

-- An attempt: the profile is taken, the loop ends without one, or it goes on with the next.
pub data Attempt (Details Carried : Type 0) : Type 0 where
  taken failed : Hunt Details Carried → Attempt Details Carried
  goes_on : Hunt Details Carried → Profile Details → Attempt Details Carried

module _ {Details Carried : Type 0} (out : Outside Details) where
  abbrev pub then_step : Hunt Details Carried → Step Details Carried → Hunt Details Carried
  then_step h (leg, es) = record h { leg = leg; effects = h.effects ++ es }

  -- With the profile that comes next: the loop goes on, if it does not refuse.
  unfoldable pub proceed : Hunt Details Carried → Option (Profile Details) → Attempt Details Carried
  proceed h none = failed (then_step h (note_failed h.rli h.leg))
  proceed h (some q) =
      if is_zero q.disconnect_code_id
      then goes_on h q
      else failed (then_step h (note_failed h.rli h.leg))

  -- RES_CTL_NEXT
  unfoldable pub fail_over : Hunt Details Carried → Attempt Details Carried
  unfolding next_profile proceed
  fail_over h =
      let (step, next) = next_profile out false true h.leg in proceed (then_step h step) next

  -- What follows each answer of `rctl.get`.
  unfoldable pub answered : CtlResponse → Hunt Details Carried → Attempt Details Carried
  unfolding fail_over
  answered ctl_ok h = taken h
  answered ctl_error h = failed h
  answered ctl_reject h = failed (then_step h (note_failed h.rli h.leg))
  answered ctl_next h = fail_over h

  -- `rctl.get` for the current profile `p`.
  abbrev pub asked :
      Ask
      → Hunt Details Carried
      → Profile Details
      → List (Profile Details)
      → CtlResponse × Hunt Details Carried
  asked ask h p rest =
      let (leg, g) = take_resources ask h.config p rest h.leg in
      (
        g.response,
        record {
          leg = leg;
          effects = h.effects ++ map Effect.redis g.effects;
          config = g.config;
          rli = left_at ask h.leg.control p.rl h.rli;
        },
      )

  unfoldable pub ask_resources :
      Ask
      → Hunt Details Carried
      → Profile Details
      → List (Profile Details)
      → Attempt Details Carried
  unfolding take_resources answered
  ask_resources ask h p rest = let (response, h') = asked ask h p rest in answered response h'

  -- The body of the loop, for the current profile `p`.
  unfoldable pub attempt :
      Ask
      → Hunt Details Carried
      → Profile Details
      → List (Profile Details)
      → Attempt Details Carried
  unfolding check_and_refuse ask_resources
  attempt ask h p rest =
      let (leg, refuses) = check_and_refuse out p h.leg in
      let open_ = record h { leg = leg } in
      if refuses
      then failed open_
      else (if is_empty p.rl then taken open_ else ask_resources ask open_ p rest)

  -- A round of the loop at the current profile, if there is one; `again` is the rest of the loop.
  unfoldable pub hunt_at :
      (Hunt Details Carried → Option (Bool × Hunt Details Carried))
      → Ask
      → Hunt Details Carried
      → List (Profile Details)
      → Option (Bool × Hunt Details Carried)
  unfolding attempt
  hunt_at again ask h [] = some (false, h)
  hunt_at again ask h (p ∷ rest) = elim (attempt ask h p rest) [
    | taken h' ↦ some (true, h')
    | failed h' ↦ some (false, h')
    | goes_on h' q ↦ again h'
  ]

  -- The loop; `asks n` belongs to the attempt with `n` more to come. `none` if the fuel runs out.
  unfoldable pub hunt : ℕ → (ℕ → Ask) → Hunt Details Carried → Option (Bool × Hunt Details Carried)
  unfolding hunt_at
  hunt zero asks h = none
  hunt (suc n) asks h = hunt_at (hunt n asks) (asks n) h h.leg.ctx.current

  -- Behind the loop: the call profile is set, or the CDR gets the reason.
  abbrev pub use_profile : Profile Details → Leg Details Carried → Leg Details Carried
  use_profile p leg = record (put_cdr (update_with_resource_list p.rl leg.ctx.cdr) leg) {
    call_profile = p;
  }

  -- With the profiles from the iterator on.
  abbrev pub use_current : List (Profile Details) → Leg Details Carried → Leg Details Carried
  use_current [] leg = leg
  use_current (p ∷ rest) leg = use_profile p leg

  unfoldable pub conclude : Bool × Hunt Details Carried → Bool × Step Details Carried
  unfolding translate_resource update_with_resource_list update_internal_reason
  conclude (true, h) = (true, (use_current h.leg.ctx.current h.leg, h.effects))
  conclude (false, h) =
      let ((leg, es), t) = translate_resource out h.config h.rli h.leg in
      (false, (note_ts out t.response_reason t.response_code leg, h.effects ++ es))

  -- `chooseNextProfile`; the profiles from the iterator on are enough fuel.
  unfoldable pub choose_next_profile :
      (ℕ → Ask) → Leg Details Carried → Option (Bool × Step Details Carried)
  unfolding next_profile hunt conclude
  choose_next_profile asks leg =
      let ((leg', es), next) = next_profile out false false leg in
      let start : Hunt Details Carried = record {
        leg = leg';
        effects = es;
        config = unset_config;
        rli = none;
      } in
      let hunted = hunt (length leg'.ctx.current) asks start in
      elim next [
        | none ↦ some (false, (leg', es))
        | some p ↦ elim hunted [ none ↦ none | some h ↦ some (conclude h) ]
      ]
