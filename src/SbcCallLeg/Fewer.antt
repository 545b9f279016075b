-- ===== src/SbcCallLeg/Fewer.antt =====
-- src/SBCCallLeg.cpp: the loop over the profiles ends, and each callee uses up profiles.
use sems_yeti.Prelude.{
  ℕ, zero, suc, ◌+◌, ◌≡◌, refl, ap, ◌∙◌, ◌≤◌, ◌<◌, ◌⊎◌, inl, inr, Bool, true, false, List, [], ◌∷◌,
  ◌++◌, Option, none, some, Bool-cases, if◌then◌else◌, length, length-append, map, arith,
}
use sems_yeti.Resource.{Resource}
use sems_yeti.Sequences.{is_zero}
use sems_yeti.Redis
use sems_yeti.Redis.{is_empty}
use sems_yeti.Cdr.{Cdr}
use sems_yeti.Control
use sems_yeti.Control.{CtlResponse, ctl_ok, ctl_error, ctl_reject, ctl_next}
use sems_yeti.CallCtx.{Profile, get_next_profile}
use sems_yeti.SbcCallLeg.{
  Effect, written, redis, callee, remove_fake_ringing, singular, Ask, Leg, Outside, Step,
  next_profile, next_profile_at, note_failed, check_and_refuse, take_resources,
}
use sems_yeti.SbcCallLeg.Holding.{Moved, next_profile-Moved}
use sems_yeti.SbcCallLeg.Hunting.{
  Hunt, Attempt, taken, failed, goes_on, then_step, proceed, fail_over, answered, asked,
  ask_resources, attempt, hunt_at, hunt,
}

module _ {Details Carried : Type 0} where
  -- How many callees are started.
  abbrev pub callees : List (Effect Details Carried) → ℕ
  callees [] = 0
  callees (written c ∷ es) = callees es
  callees (redis e ∷ es) = callees es
  callees (callee p ∷ es) = suc (callees es)
  callees (remove_fake_ringing ∷ es) = callees es
  callees (singular ∷ es) = callees es

  pub callees-append :
      (es fs : List (Effect Details Carried)) → callees (es ++ fs) ≡ callees es + callees fs
  callees-append [] fs = omega arith
  callees-append (written c ∷ es) fs = callees-append es fs
  callees-append (redis e ∷ es) fs = callees-append es fs
  callees-append (callee p ∷ es) fs = omega (arith, callees-append es fs)
  callees-append (remove_fake_ringing ∷ es) fs = callees-append es fs
  callees-append (singular ∷ es) fs = callees-append es fs

  pub callees-written : (cs : List (Cdr Details Carried)) → callees (map written cs) ≡ 0
  callees-written [] = refl
  callees-written (c ∷ cs) = callees-written cs

  callees-note_failed :
      (rli : Option Resource) (leg : Leg Details Carried)
      → (callees (note_failed rli leg).1 ≡ 0)
        × ((note_failed rli leg).0.ctx.current ≡ leg.ctx.current)
  callees-note_failed none leg = (refl, refl)
  callees-note_failed (some r) leg = (refl, refl)

  next_profile_at-callees :
      (out : Outside Details) (early failover : Bool) (leg : Leg Details Carried)
      (ps : List (Profile Details))
      → callees (next_profile_at out early failover leg ps).0.1 ≡ 0
  unfolding next_profile_at
  next_profile_at-callees out early failover leg [] = refl
  next_profile_at-callees out early failover leg (p ∷ rest) =
      callees-written
        (get_next_profile out.env out.clock early failover leg.ctx leg.translator p rest).written

  pub next_profile-callees :
      (out : Outside Details) (early failover : Bool) (leg : Leg Details Carried)
      → callees (next_profile out early failover leg).0.1 ≡ 0
  unfolding next_profile
  next_profile-callees out early failover leg =
      next_profile_at-callees out early failover leg leg.ctx.current

  -- No callee so far, and at most `k` profiles from the current one on.
  abbrev pub Fewer : ℕ → Hunt Details Carried → Type 0
  Fewer k h = (length h.leg.ctx.current ≤ k) × (callees h.effects ≡ 0)

  -- An attempt goes on with fewer profiles, of which there are some.
  abbrev pub Shrinks : ℕ → Attempt Details Carried → Type 0
  Shrinks k (taken h) = Fewer k h
  Shrinks k (failed h) = Fewer k h
  Shrinks k (goes_on h q) =
      Fewer k h × (0 < length h.leg.ctx.current) × (length h.leg.ctx.current < k)

  -- After a move: the same profiles, or fewer, and some if there is a next one.
  pub Moved-length :
      (leg leg' : Leg Details Carried) (p : Profile Details) (rest : List (Profile Details))
      (es : List (Effect Details Carried)) (next : Option (Profile Details))
      → leg.ctx.current ≡ p ∷ rest
      → Moved leg rest ((leg', es), next)
      → ((next ≡ none) × (length leg'.ctx.current ≡ suc (length rest)))
        ⊎ ((q : Profile Details) × (next ≡ some q)
            × (0 < length leg'.ctx.current)
            × (length leg'.ctx.current ≤ length rest))
  Moved-length leg leg' p rest es next e (c, cp, inl (gone, same)) =
      inl (gone, ap (λ x. length x.current) same ∙ ap length e)
  Moved-length leg leg' p rest es next e (c, cp, inr (q, passed, after, chosen, split, current)) =
      inr (
        q,
        chosen,
        omega (arith, ap length current),
        omega (arith, ap length current, ap length split, length-append passed (q ∷ after)),
      )

pub callees-redis :
    (Details Carried : Type 0) (cs : List Redis.Effect)
    → let es : List (Effect Details Carried) = map redis cs in callees es ≡ 0
callees-redis Details Carried [] = refl
callees-redis Details Carried (c ∷ cs) = callees-redis Details Carried cs

module _ {Details Carried : Type 0} (out : Outside Details) where
  then_step-callees :
      (h : Hunt Details Carried) (s : Step Details Carried)
      → callees h.effects ≡ 0
      → callees s.1 ≡ 0
      → callees (then_step out h s).effects ≡ 0
  then_step-callees h (leg, es) a b = omega (arith, callees-append h.effects es)

  failed-Fewer :
      (k : ℕ) (h : Hunt Details Carried)
      → Fewer k h
      → Fewer k (then_step out h (note_failed h.rli h.leg))
  failed-Fewer k h (l, c) =
      let noted = callees-note_failed h.rli h.leg in
      (omega (arith, ap length noted.1), then_step-callees h (note_failed h.rli h.leg) c noted.0)

  proceed-Shrinks :
      (k : ℕ) (h : Hunt Details Carried) (next : Option (Profile Details))
      → ((next ≡ none) × (length h.leg.ctx.current ≡ suc k))
        ⊎ ((q : Profile Details) × (next ≡ some q)
            × (0 < length h.leg.ctx.current)
            × (length h.leg.ctx.current ≤ k))
      → callees h.effects ≡ 0
      → Shrinks (suc k) (proceed out h next)
  unfolding proceed
  proceed-Shrinks k h none (inl (gone, same)) c = failed-Fewer (suc k) h (omega arith, c)
  proceed-Shrinks k h none (inr (q, chosen, some_left, fewer)) c = cc
  proceed-Shrinks k h (some q) (inl (gone, same)) c = cc
  proceed-Shrinks k h (some q) (inr (q', chosen, some_left, fewer)) c =
      elim (Bool-cases (is_zero q.disconnect_code_id)) [
        | inl plain ↦ rw plain ((omega arith, c), some_left, omega arith)
        | inr refuses ↦ rw refuses (failed-Fewer (suc k) h (omega arith, c))
      ]

  fail_over-Shrinks :
      (h : Hunt Details Carried) (p : Profile Details) (rest : List (Profile Details))
      → h.leg.ctx.current ≡ p ∷ rest
      → callees h.effects ≡ 0
      → Shrinks (suc (length rest)) (fail_over out h)
  unfolding fail_over
  fail_over-Shrinks h p rest e c =
      let next = next_profile out false true h.leg in
      proceed-Shrinks (length rest) (then_step out h next.0) next.1
        (Moved-length h.leg next.0.0 p rest next.0.1 next.1 e
          (next_profile-Moved out false true h.leg p rest e))
        (then_step-callees h next.0 c (next_profile-callees out false true h.leg))

  answered-Shrinks :
      (response : CtlResponse) (h : Hunt Details Carried) (p : Profile Details)
      (rest : List (Profile Details))
      → h.leg.ctx.current ≡ p ∷ rest
      → callees h.effects ≡ 0
      → Shrinks (suc (length rest)) (answered out response h)
  unfolding answered
  answered-Shrinks ctl_ok h p rest e c = (omega (arith, ap length e), c)
  answered-Shrinks ctl_error h p rest e c = (omega (arith, ap length e), c)
  answered-Shrinks ctl_reject h p rest e c =
      failed-Fewer (suc (length rest)) h (omega (arith, ap length e), c)
  answered-Shrinks ctl_next h p rest e c = fail_over-Shrinks h p rest e c

  check_and_refuse-current :
      (p : Profile Details) (leg : Leg Details Carried)
      → (check_and_refuse out p leg).0.ctx.current ≡ leg.ctx.current
  unfolding check_and_refuse
  check_and_refuse-current p leg = elim (Bool-cases (is_zero p.disconnect_code_id)) [
    | inl plain ↦ rw plain refl
    | inr refuses ↦ rw refuses refl
  ]

  ask_resources-Shrinks :
      (ask : Ask) (h : Hunt Details Carried) (p : Profile Details) (rest : List (Profile Details))
      → callees h.effects ≡ 0
      → Shrinks (suc (length rest)) (ask_resources out ask h p rest)
  unfolding ask_resources take_resources
  ask_resources-Shrinks ask h p rest c =
      let next = asked out ask h p rest in
      let g =
        Control.get ask.could_post h.leg.control p.rl p.resource_handler h.leg.local_tag h.config
          ask.new_id ask.answer in
      answered-Shrinks next.0 next.1 (record p { rl = g.rl; resource_handler = g.handler }) rest
        refl
        (omega (
          arith,
          callees-append h.effects (map redis g.effects),
          callees-redis Details Carried g.effects,
        ))

  branch-Shrinks :
      (k : ℕ) (refuses nothing : Bool) (h : Hunt Details Carried) (a : Attempt Details Carried)
      → Fewer k h
      → Shrinks k a
      → Shrinks k (if refuses then failed h else (if nothing then taken h else a))
  branch-Shrinks k true nothing h a l m = l
  branch-Shrinks k false true h a l m = l
  branch-Shrinks k false false h a l m = m

  attempt-Shrinks :
      (ask : Ask) (h : Hunt Details Carried) (p : Profile Details) (rest : List (Profile Details))
      → h.leg.ctx.current ≡ p ∷ rest
      → callees h.effects ≡ 0
      → Shrinks (suc (length rest)) (attempt out ask h p rest)
  unfolding attempt
  attempt-Shrinks ask h p rest e c =
      let leg = (check_and_refuse out p h.leg).0 in
      let open_ = record h { leg = leg } in
      branch-Shrinks (suc (length rest)) (check_and_refuse out p h.leg).1 (is_empty p.rl) open_
        (ask_resources out ask open_ p rest)
        (omega (arith, ap length (check_and_refuse-current p h.leg ∙ e)), c)
        (ask_resources-Shrinks ask open_ p rest c)

  -- The loop returns, without a callee and with at most `k` profiles left.
  abbrev pub Returns : ℕ → Option (Bool × Hunt Details Carried) → Type 0
  Returns k none = ⊥
  Returns k (some (chosen, h)) = Fewer k h

  leave-Returns :
      (k : ℕ) (again : Hunt Details Carried → Option (Bool × Hunt Details Carried))
      (a : Attempt Details Carried)
      → ((h : Hunt Details Carried)
          → callees h.effects ≡ 0
          → 0 < length h.leg.ctx.current
          → length h.leg.ctx.current < k
          → Returns k (again h))
      → Shrinks k a
      → Returns k (elim a [
        | taken h' ↦ some (true, h')
        | failed h' ↦ some (false, h')
        | goes_on h' q ↦ again h'
      ])
  leave-Returns k again (taken h) more l = l
  leave-Returns k again (failed h) more l = l
  leave-Returns k again (goes_on h q) more ((l, c), some_left, fewer) = more h c some_left fewer

  hunt_at-Returns :
      (again : Hunt Details Carried → Option (Bool × Hunt Details Carried)) (ask : Ask)
      (h : Hunt Details Carried) (ps : List (Profile Details))
      → ((h' : Hunt Details Carried)
          → callees h'.effects ≡ 0
          → 0 < length h'.leg.ctx.current
          → length h'.leg.ctx.current < length ps
          → Returns (length ps) (again h'))
      → h.leg.ctx.current ≡ ps
      → callees h.effects ≡ 0
      → Returns (length ps) (hunt_at out again ask h ps)
  unfolding hunt_at
  hunt_at-Returns again ask h [] more e c = (omega (arith, ap length e), c)
  hunt_at-Returns again ask h (p ∷ rest) more e c =
      leave-Returns (suc (length rest)) again (attempt out ask h p rest) more
        (attempt-Shrinks ask h p rest e c)

  widen-Returns :
      (k l : ℕ) (r : Option (Bool × Hunt Details Carried)) → k ≤ l → Returns k r → Returns l r
  widen-Returns k l none w h = h
  widen-Returns k l (some (chosen, x)) w (h, c) = (omega arith, c)

  -- As many rounds as there are profiles are enough.
  pub hunt-Returns :
      (n : ℕ) (asks : ℕ → Ask) (h : Hunt Details Carried)
      → 0 < length h.leg.ctx.current
      → length h.leg.ctx.current ≤ n
      → callees h.effects ≡ 0
      → Returns (length h.leg.ctx.current) (hunt out n asks h)
  unfolding hunt
  hunt-Returns zero asks h some_left enough c = absurd (omega arith)
  hunt-Returns (suc n) asks h some_left enough c =
      hunt_at-Returns (hunt out n asks) (asks n) h h.leg.ctx.current
        (λ h' c' more fewer.
          widen-Returns (length h'.leg.ctx.current) (length h.leg.ctx.current) (hunt out n asks h')
            (omega arith) (hunt-Returns n asks h' more (omega arith) c'))
        refl c
