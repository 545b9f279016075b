-- ===== src/SbcCallLeg/GivesBack.antt =====
-- src/SBCCallLeg.cpp: through all attempts of a call, at most the current profile holds resources.
use mathlib.Core.Path.{subst}
use sems_yeti.Prelude.{
  ℕ, zero, suc, ◌≡◌, refl, sym, ◌∙◌, ◌≢◌, ◌⊎◌, inl, inr, Bool, true, false, List, [], ◌∷◌, Option,
  none, some, Bool-cases, if◌then◌else◌,
}
use sems_yeti.Prelude.Classes.{Text, text_key}
use sems_yeti.Prelude.Map.{Map, find}
use sems_yeti.Resource.{Resource}
use sems_yeti.Sequences.{is_zero}
use sems_yeti.Redis.{is_empty}
use sems_yeti.Control
use sems_yeti.Control.{HandlersEntry, CtlResponse, ctl_ok, ctl_error, ctl_reject, ctl_next}
use sems_yeti.CallCtx.{Profile}
use sems_yeti.SbcCallLeg.{
  Ask, Leg, Outside, next_profile, note_failed, check_and_refuse, take_resources,
}
use sems_yeti.SbcCallLeg.Held.{Held, take-Held}
use sems_yeti.SbcCallLeg.Holding.{
  Fresh, Unused, HoldingAt, IsHolding, IsReady, Ready-Holding, next_profile-Moved, Moved-Ready,
  Same, Same-Ready,
}
use sems_yeti.SbcCallLeg.Hunting.{
  Hunt, Attempt, taken, failed, goes_on, then_step, proceed, fail_over, answered, asked,
  ask_resources, attempt, hunt_at, hunt, use_current, conclude,
}

module _ {Details Carried : Type 0} (out : Outside Details) (before : Map Text HandlersEntry) where
  -- What an attempt leaves.
  abbrev pub Leaves : Attempt Details Carried → Type 0
  Leaves (taken h) = IsHolding before h.leg
  Leaves (failed h) = IsHolding before h.leg
  Leaves (goes_on h q) = IsReady before h.leg

  pub note_failed-Holding :
      (rli : Option Resource) (leg : Leg Details Carried)
      → IsHolding before leg
      → IsHolding before (note_failed rli leg).0
  note_failed-Holding none leg h = h
  note_failed-Holding (some r) leg h = h

  proceed-Leaves :
      (h : Hunt Details Carried) (next : Option (Profile Details))
      → IsReady before h.leg
      → Leaves (proceed out h next)
  unfolding proceed
  proceed-Leaves h none r = note_failed-Holding h.rli h.leg (Ready-Holding before h.leg r)
  proceed-Leaves h (some q) r = elim (Bool-cases (is_zero q.disconnect_code_id)) [
    | inl plain ↦ rw plain r
    | inr refuses ↦ rw refuses (note_failed-Holding h.rli h.leg (Ready-Holding before h.leg r))
  ]

  fail_over-Leaves :
      (h : Hunt Details Carried) (p : Profile Details) (rest : List (Profile Details))
      → h.leg.ctx.current ≡ p ∷ rest
      → IsReady before h.leg
      → Leaves (fail_over out h)
  unfolding fail_over
  fail_over-Leaves h p rest e r =
      let next = next_profile out false true h.leg in
      proceed-Leaves (then_step out h next.0) next.1 (
        Moved-Ready before h.leg p rest next e r (next_profile-Moved out false true h.leg p rest e))

  answered-Leaves :
      (response : CtlResponse) (h : Hunt Details Carried) (p : Profile Details)
      (rest : List (Profile Details))
      → h.leg.ctx.current ≡ p ∷ rest
      → Held before p.resource_handler h.leg.control × Unused rest
      → find h.leg.call_profile.resource_handler before ≡ none
      → (p.resource_handler ≡ []) ⊎ (response ≡ ctl_ok)
      → Leaves (answered out response h)
  unfolding answered
  answered-Leaves ctl_ok h p rest e held n spare =
      (subst (λ ps. HoldingAt before ps h.leg.control) (sym e) held, n)
  answered-Leaves ctl_error h p rest e held n spare =
      (subst (λ ps. HoldingAt before ps h.leg.control) (sym e) held, n)
  answered-Leaves ctl_reject h p rest e held n spare =
      note_failed-Holding h.rli h.leg
        (subst (λ ps. HoldingAt before ps h.leg.control) (sym e) held, n)
  answered-Leaves ctl_next h p rest e held n (inr ok) = cc
  answered-Leaves ctl_next h p rest e held n (inl unused) = fail_over-Leaves h p rest e (
    subst (λ k. Held before k h.leg.control) unused held.0,
    subst Unused (sym e) (unused, held.1),
    n,
  )

  pub check_and_refuse-Same :
      (p : Profile Details) (leg : Leg Details Carried) → Same leg (check_and_refuse out p leg).0
  unfolding check_and_refuse
  check_and_refuse-Same p leg = elim (Bool-cases (is_zero p.disconnect_code_id)) [
    | inl plain ↦ rw plain (refl, refl, refl)
    | inr refuses ↦ rw refuses (refl, refl, refl)
  ]

  ask_resources-Leaves :
      (ask : Ask) (h : Hunt Details Carried) (p : Profile Details) (rest : List (Profile Details))
      → (ask.new_id ≢ []) × (find ask.new_id before ≡ none)
      → h.leg.ctx.current ≡ p ∷ rest
      → IsReady before h.leg
      → Leaves (ask_resources out ask h p rest)
  unfolding ask_resources take_resources
  ask_resources-Leaves ask h p rest fresh e (held, u, n) =
      let unused = subst Unused e u in
      let given =
        take-Held before ask.could_post h.leg.control p.rl p.resource_handler h.leg.local_tag
          h.config ask.new_id ask.answer held unused.0 fresh in
      let next = asked out ask h p rest in
      let g =
        Control.get ask.could_post h.leg.control p.rl p.resource_handler h.leg.local_tag h.config
          ask.new_id ask.answer in
      answered-Leaves next.0 next.1 (record p { rl = g.rl; resource_handler = g.handler }) rest refl
        (given.0, unused.1) n given.1

  branch-Leaves :
      (refuses nothing : Bool) (h : Hunt Details Carried) (a : Attempt Details Carried)
      → IsHolding before h.leg
      → Leaves a
      → Leaves (if refuses then failed h else (if nothing then taken h else a))
  branch-Leaves true nothing h a l m = l
  branch-Leaves false true h a l m = l
  branch-Leaves false false h a l m = m

  attempt-Leaves :
      (ask : Ask) (h : Hunt Details Carried) (p : Profile Details) (rest : List (Profile Details))
      → (ask.new_id ≢ []) × (find ask.new_id before ≡ none)
      → h.leg.ctx.current ≡ p ∷ rest
      → IsReady before h.leg
      → Leaves (attempt out ask h p rest)
  unfolding attempt
  attempt-Leaves ask h p rest fresh e r =
      let leg = (check_and_refuse out p h.leg).0 in
      let same = check_and_refuse-Same p h.leg in
      let ready = Same-Ready before h.leg leg same r in
      let open_ = record h { leg = leg } in
      branch-Leaves (check_and_refuse out p h.leg).1 (is_empty p.rl) open_
        (ask_resources out ask open_ p rest) (Ready-Holding before leg ready)
        (ask_resources-Leaves ask open_ p rest fresh (same.1 ∙ e) ready)

  -- What the loop leaves, if it has the fuel.
  abbrev pub Ends : Option (Bool × Hunt Details Carried) → Type 0
  Ends none = Unit {0}
  Ends (some (chosen, h)) = IsHolding before h.leg

  leave-Ends :
      (again : Hunt Details Carried → Option (Bool × Hunt Details Carried))
      (a : Attempt Details Carried)
      → ((h : Hunt Details Carried) → IsReady before h.leg → Ends (again h))
      → Leaves a
      → Ends (elim a [
        | taken h' ↦ some (true, h')
        | failed h' ↦ some (false, h')
        | goes_on h' q ↦ again h'
      ])
  leave-Ends again (taken h) more l = l
  leave-Ends again (failed h) more l = l
  leave-Ends again (goes_on h q) more l = more h l

  hunt_at-Ends :
      (again : Hunt Details Carried → Option (Bool × Hunt Details Carried)) (ask : Ask)
      (h : Hunt Details Carried) (ps : List (Profile Details))
      → ((h' : Hunt Details Carried) → IsReady before h'.leg → Ends (again h'))
      → (ask.new_id ≢ []) × (find ask.new_id before ≡ none)
      → h.leg.ctx.current ≡ ps
      → IsReady before h.leg
      → Ends (hunt_at out again ask h ps)
  unfolding hunt_at
  hunt_at-Ends again ask h [] more fresh e r = Ready-Holding before h.leg r
  hunt_at-Ends again ask h (p ∷ rest) more fresh e r =
      leave-Ends again (attempt out ask h p rest) more (attempt-Leaves ask h p rest fresh e r)

  pub hunt-Ends :
      (n : ℕ) (asks : ℕ → Ask) (h : Hunt Details Carried)
      → Fresh before asks
      → IsReady before h.leg
      → Ends (hunt out n asks h)
  unfolding hunt
  hunt-Ends zero asks h fresh r = tt
  hunt-Ends (suc n) asks h fresh r =
      hunt_at-Ends (hunt out n asks) (asks n) h h.leg.ctx.current
        (λ h' r'. hunt-Ends n asks h' fresh r') (fresh n) refl r

  pub use_current-Holding :
      (ps : List (Profile Details)) (leg : Leg Details Carried)
      → leg.ctx.current ≡ ps
      → IsHolding before leg
      → IsHolding before (use_current out ps leg)
  use_current-Holding [] leg e h = h
  use_current-Holding (p ∷ rest) leg e (h, n) =
      (h, (subst (λ ps. HoldingAt before ps leg.control) e h).0.0)

  pub conclude-Holding :
      (chosen : Bool) (h : Hunt Details Carried)
      → IsHolding before h.leg
      → IsHolding before (conclude out (chosen, h)).1.0
  unfolding conclude
  conclude-Holding true h l = use_current-Holding h.leg.ctx.current h.leg refl l
  conclude-Holding false h l = l
