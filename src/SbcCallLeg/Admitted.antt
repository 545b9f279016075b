-- ===== src/SbcCallLeg/Admitted.antt =====
-- src/SBCCallLeg.cpp: what processResourcesAndSdp leaves of the resources, whether or not it throws.
use mathlib.Core.Path.{subst}
use mathlib.Core.Option
use sems_yeti.Prelude.{
  ℕ, zero, suc, ◌==◌, ◌≡◌, refl, sym, ◌≢◌, ◌⊎◌, inl, inr, Bool, true, false, not, List, [], ◌∷◌,
  Option, none, some, Bool-cases, if◌then◌else◌, length,
}
use sems_yeti.Prelude.Classes.{Text, text_key}
use sems_yeti.Prelude.Map.{Map, find}
use sems_yeti.Sequences.{is_zero}
use sems_yeti.Control
use sems_yeti.Control.{HandlersEntry, CtlResponse, ctl_ok, ctl_error, ctl_reject, ctl_next}
use sems_yeti.CallCtx.{Profile}
use sems_yeti.SbcCallLeg.{
  Effect, Ask, Leg, Outside, next_profile, note_failed, check_and_refuse, take_resources,
  unset_config,
}
use sems_yeti.SbcCallLeg.Held.{Held, take-Held}
use sems_yeti.SbcCallLeg.Holding.{
  Fresh, Unused, HoldingAt, IsHolding, IsReady, Ready-Holding, next_profile-Moved, Moved-Ready,
  Same-Ready, give_back-Holding,
}
use sems_yeti.SbcCallLeg.Hunting.{Hunt, then_step, asked, use_current}
use sems_yeti.SbcCallLeg.GivesBack.{note_failed-Holding, check_and_refuse-Same, use_current-Holding}
use sems_yeti.SbcCallLeg.Admission.{
  Processing, Thrown, internal, plain, Round, granted, refused, throws, again, throw_resource,
  accept_next, fail_over_early, answered_early, round, rounds_at, rounds, process_profile,
  process_current, catch_thrown, unless_thrown, process_resources_and_sdp,
}

module _ {Details Carried : Type 0} (out : Outside Details) (before : Map Text HandlersEntry) where
  -- What a round leaves.
  abbrev Leaves : Round Details Carried → Type 0
  Leaves (granted h) = IsHolding before h.leg
  Leaves (refused h) = IsHolding before h.leg
  Leaves (throws h t) = IsHolding before h.leg
  Leaves (again h) = IsReady before h.leg

  branch-Leaves :
      (refusing refuses : Bool) (a b c : Round Details Carried)
      → Leaves a
      → Leaves b
      → Leaves c
      → Leaves (if refusing then a else (if refuses then b else c))
  branch-Leaves true refuses a b c x y z = x
  branch-Leaves false true a b c x y z = y
  branch-Leaves false false a b c x y z = z

  throw_resource-Holding :
      (h : Hunt Details Carried)
      → IsHolding before h.leg
      → IsHolding before (throw_resource out h).0.leg
  unfolding throw_resource
  throw_resource-Holding h l = l

  accept_next-Leaves :
      (h : Hunt Details Carried) (next : Option (Profile Details))
      → IsReady before h.leg
      → Leaves (accept_next out h next)
  unfolding accept_next
  accept_next-Leaves h none r =
      note_failed-Holding out before h.rli h.leg (Ready-Holding before h.leg r)
  accept_next-Leaves h (some q) r =
      let noted = then_step out h (note_failed h.rli h.leg) in
      let leg = (check_and_refuse out q h.leg).0 in
      let ready = Same-Ready before h.leg leg (check_and_refuse-Same out before q h.leg) r in
      branch-Leaves (not (is_zero q.disconnect_code_id)) (check_and_refuse out q h.leg).1
        (throws (throw_resource out noted).0 (throw_resource out noted).1) _
        (again (record h { leg = leg }))
        (throw_resource-Holding noted
          (note_failed-Holding out before h.rli h.leg (Ready-Holding before h.leg r)))
        (Ready-Holding before leg ready) ready

  fail_over_early-Leaves :
      (h : Hunt Details Carried) (p : Profile Details) (rest : List (Profile Details))
      → h.leg.ctx.current ≡ p ∷ rest
      → IsReady before h.leg
      → Leaves (fail_over_early out h)
  unfolding fail_over_early
  fail_over_early-Leaves h p rest e r =
      let next = next_profile out true false h.leg in
      accept_next-Leaves (then_step out h next.0) next.1 (
        Moved-Ready before h.leg p rest next e r (next_profile-Moved out true false h.leg p rest e))

  answered-Leaves :
      (response : CtlResponse) (h : Hunt Details Carried) (p : Profile Details)
      (rest : List (Profile Details))
      → h.leg.ctx.current ≡ p ∷ rest
      → Held before p.resource_handler h.leg.control × Unused rest
      → find h.leg.call_profile.resource_handler before ≡ none
      → (p.resource_handler ≡ []) ⊎ (response ≡ ctl_ok)
      → Leaves (answered_early out response h)
  unfolding answered_early
  answered-Leaves ctl_ok h p rest e held n spare =
      (subst (λ ps. HoldingAt before ps h.leg.control) (sym e) held, n)
  answered-Leaves ctl_error h p rest e held n spare =
      (subst (λ ps. HoldingAt before ps h.leg.control) (sym e) held, n)
  answered-Leaves ctl_reject h p rest e held n spare =
      note_failed-Holding out before h.rli h.leg
        (subst (λ ps. HoldingAt before ps h.leg.control) (sym e) held, n)
  answered-Leaves ctl_next h p rest e held n (inr ok) = cc
  answered-Leaves ctl_next h p rest e held n (inl unused) = fail_over_early-Leaves h p rest e (
    subst (λ k. Held before k h.leg.control) unused held.0,
    subst Unused (sym e) (unused, held.1),
    n,
  )

  round-Leaves :
      (ask : Ask) (h : Hunt Details Carried) (p : Profile Details) (rest : List (Profile Details))
      → (ask.new_id ≢ []) × (find ask.new_id before ≡ none)
      → h.leg.ctx.current ≡ p ∷ rest
      → IsReady before h.leg
      → Leaves (round out ask h p rest)
  unfolding round take_resources
  round-Leaves ask h p rest fresh e (held, u, n) =
      let unused = subst Unused e u in
      let given =
        take-Held before ask.could_post h.leg.control p.rl p.resource_handler h.leg.local_tag
          h.config ask.new_id ask.answer held unused.0 fresh in
      let next = asked out ask h p rest in
      let g =
        Control.get ask.could_post h.leg.control p.rl p.resource_handler h.leg.local_tag h.config
          ask.new_id ask.answer in
      answered-Leaves next.0 next.1 (record p { rl = g.rl; resource_handler = g.handler }) rest refl
        (given.0, unused.1) n given.1

  abbrev Ends : Option (Hunt Details Carried × Option Thrown) → Type 0
  Ends none = Unit {0}
  Ends (some (h, t)) = IsHolding before h.leg

  leave-Ends :
      (more : Hunt Details Carried → Option (Hunt Details Carried × Option Thrown))
      (r : Round Details Carried)
      → ((h : Hunt Details Carried) → IsReady before h.leg → Ends (more h))
      → Leaves r
      → Ends (elim r [
        | granted h' ↦ some (h', none)
        | refused h' ↦ let (noted, t) = throw_resource out h' in some (noted, some t)
        | throws h' t ↦ some (h', some t)
        | again h' ↦ more h'
      ])
  leave-Ends more (granted h) k l = l
  leave-Ends more (refused h) k l = throw_resource-Holding h l
  leave-Ends more (throws h t) k l = l
  leave-Ends more (again h) k l = k h l

  rounds_at-Ends :
      (more : Hunt Details Carried → Option (Hunt Details Carried × Option Thrown)) (ask : Ask)
      (h : Hunt Details Carried) (ps : List (Profile Details))
      → ((h' : Hunt Details Carried) → IsReady before h'.leg → Ends (more h'))
      → (ask.new_id ≢ []) × (find ask.new_id before ≡ none)
      → h.leg.ctx.current ≡ ps
      → IsReady before h.leg
      → Ends (rounds_at out more ask h ps)
  unfolding rounds_at
  rounds_at-Ends more ask h [] k fresh e r = Ready-Holding before h.leg r
  rounds_at-Ends more ask h (p ∷ rest) k fresh e r =
      leave-Ends more (round out ask h p rest) k (round-Leaves ask h p rest fresh e r)

  rounds-Ends :
      (n : ℕ) (asks : ℕ → Ask) (h : Hunt Details Carried)
      → Fresh before asks
      → IsReady before h.leg
      → Ends (rounds out n asks h)
  unfolding rounds
  rounds-Ends zero asks h fresh r = tt
  rounds-Ends (suc n) asks h fresh r =
      rounds_at-Ends (rounds out n asks) (asks n) h h.leg.ctx.current
        (λ h' r'. rounds-Ends n asks h' fresh r') (fresh n) refl r

  process_profile-Holding :
      (sdp : Processing) (h : Hunt Details Carried) (p : Profile Details)
      → IsHolding before (use_current out (p ∷ []) h.leg)
      → IsHolding before (process_profile out sdp h p).0.leg
  unfolding process_profile
  process_profile-Holding sdp h p l = elim (Bool-cases (sdp.offer == 0)) [
    | inr refuses ↦ rw refuses l
    | inl good ↦ elim (Bool-cases (sdp.bleg_offer == 0)) [
      | inr refuses ↦ rw (good, refuses) l
      | inl fine ↦ elim (Bool-cases (out.time_limit p.details == 0)) [
        | inl unlimited ↦ rw (good, fine, unlimited) l
        | inr limited ↦ rw (good, fine, limited) l
      ]
    ]
  ]

  process_current-Holding :
      (sdp : Processing) (h : Hunt Details Carried) (ps : List (Profile Details))
      → h.leg.ctx.current ≡ ps
      → IsHolding before h.leg
      → IsHolding before (process_current out sdp h ps).0.leg
  unfolding process_current
  process_current-Holding sdp h [] e l = l
  process_current-Holding sdp h (p ∷ rest) e l =
      process_profile-Holding sdp h p (use_current-Holding out before (p ∷ rest) h.leg e l)

  unless_thrown-Holding :
      (sdp : Processing) (r : Hunt Details Carried × Option Thrown)
      → IsHolding before r.0.leg
      → IsHolding before (unless_thrown out sdp r).0.leg
  unless_thrown-Holding sdp (h, none) l = process_current-Holding sdp h h.leg.ctx.current refl l
  unless_thrown-Holding sdp (h, some t) l = l

  catch_thrown-Holding :
      (could_post : Bool) (r : Hunt Details Carried × Option Thrown)
      → IsHolding before r.0.leg
      → IsHolding before (catch_thrown out could_post r).0.0
  unfolding catch_thrown
  catch_thrown-Holding could_post (h, none) l = l
  catch_thrown-Holding could_post (h, some (internal t)) l =
      give_back-Holding before could_post h.leg.call_profile.resource_handler h.leg l.1 l
  catch_thrown-Holding could_post (h, some (plain code reason)) l =
      give_back-Holding before could_post h.leg.call_profile.resource_handler h.leg l.1 l

  abbrev pub Admits :
      Option ((Leg Details Carried × List (Effect Details Carried)) × Option (ℕ × Text)) → Type 0
  Admits none = Unit {0}
  Admits (some ((leg, es), thrown)) = IsHolding before leg

  admit-Admits :
      (sdp : Processing) (could_post : Bool) (r : Option (Hunt Details Carried × Option Thrown))
      → Ends r
      → Admits (Option.map (λ x. catch_thrown out could_post (unless_thrown out sdp x)) r)
  admit-Admits sdp could_post none e = tt
  admit-Admits sdp could_post (some r) e =
      catch_thrown-Holding could_post (unless_thrown out sdp r) (unless_thrown-Holding sdp r e)

  pub process_resources_and_sdp-Admits :
      (asks : ℕ → Ask) (sdp : Processing) (could_post : Bool) (leg : Leg Details Carried)
      → Fresh before asks
      → IsReady before leg
      → Admits (process_resources_and_sdp out asks sdp could_post leg)
  unfolding process_resources_and_sdp
  process_resources_and_sdp-Admits asks sdp could_post leg fresh r =
      let begin : Hunt Details Carried = record {
        leg = leg;
        effects = [];
        config = unset_config;
        rli = none;
      } in
      let n = suc (length leg.ctx.current) in
      admit-Admits sdp could_post (rounds out n asks begin) (rounds-Ends n asks begin fresh r)
