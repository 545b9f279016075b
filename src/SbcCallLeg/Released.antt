-- ===== src/SbcCallLeg/Released.antt =====
-- src/SBCCallLeg.cpp: whatever the callees of a call reply, the call gives back what it took.
use mathlib.Core.Path.{subst}
use mathlib.Core.Option
use sems_yeti.Prelude.{
  ℕ, ◌==◌, ◌-◌, ◌≡◌, refl, sym, ap, ◌∙◌, inl, inr, Bool, true, false, not, ◌&&◌, List, [], ◌∷◌, ◌≤◌,
  arith, Option, none, some, Bool-cases, if◌then◌else◌, length, is_nil,
}
use sems_yeti.Prelude.Classes.{Text, text_key, text_eq, codes}
use sems_yeti.Prelude.Map.{Map, find}
use sems_yeti.Control.{HandlersEntry}
use sems_yeti.CallCtx.{Profile}
use sems_yeti.SbcCallLeg.{
  Ask, Leg, Outside, Step, Effect, remove_fake_ringing, next_profile, give_back, note_ts,
}
use sems_yeti.SbcCallLeg.Held.{Held, Free, Held-Free, Held-nil-Free, put-Free}
use sems_yeti.SbcCallLeg.Holding.{
  Fresh, Unused, HoldingAt, IsHolding, IsReady, append-Unused, Moved, next_profile-Moved, Same,
  Same-Holding, give_back-Holding,
}
use sems_yeti.SbcCallLeg.Hunting.{Hunt, conclude, choose_next_profile}
use sems_yeti.SbcCallLeg.GivesBack.{Ends, hunt-Ends, conclude-Holding}
use sems_yeti.SbcCallLeg.Refusal.{
  Refused, Connect, started, internal_exception, exception, Handled, note_refusal, try_profile,
  try_callee, chosen_next, go_on_hunting, on_bleg_refused, on_server_shutdown, release_last,
  on_before_destroy, prepend,
}

module _ {Details Carried : Type 0} (out : Outside Details) (before : Map Text HandlersEntry) where
  -- The current profile's handler has been given back.
  abbrev IsSpent : Leg Details Carried → Profile Details → List (Profile Details) → Type 0
  IsSpent leg p rest =
      (leg.ctx.current ≡ p ∷ rest)
      × Held before [] leg.control
      × (find p.resource_handler before ≡ none)
      × Unused rest
      × (find leg.call_profile.resource_handler before ≡ none)
      × Free before leg.control

  abbrev Steps : Option (Bool × Step Details Carried) → Type 0
  Steps none = Unit {0}
  Steps (some (chosen, (leg, es))) = IsHolding before leg

  concluded-Steps :
      (r : Option (Bool × Hunt Details Carried))
      → Ends out before r
      → Steps (elim r [ none ↦ none | some h ↦ some (conclude out h) ])
  concluded-Steps none e = tt
  concluded-Steps (some (chosen, h)) e = conclude-Holding out before chosen h e

  chosen-Steps :
      (leg leg' : Leg Details Carried) (es : List (Effect Details Carried))
      (next : Option (Profile Details)) (p : Profile Details) (rest : List (Profile Details))
      (r : Option (Bool × Hunt Details Carried))
      → IsSpent leg p rest
      → Moved leg rest ((leg', es), next)
      → (IsReady before leg' → Ends out before r)
      → Steps (elim next [
        | none ↦ some (false, (leg', es))
        | some q ↦ elim r [ none ↦ none | some h ↦ some (conclude out h) ]
      ])
  chosen-Steps leg leg' es none p rest r (e, h, n, u, m, f) (c, cp, inl (gone, same)) ends = (
    subst (λ x. HoldingAt before x leg'.control) (sym (ap (λ x. x.current) same ∙ e))
        (
          subst (Held before p.resource_handler) (sym c)
              (Held-Free before p.resource_handler leg.control n h.1 f),
          u,
        ),
    subst (λ x. find x.resource_handler before ≡ none) (sym cp) m,
  )
  chosen-Steps leg leg' es none p rest r s (c, cp, inr (q, passed, after, is, split, current))
        ends =
      cc
  chosen-Steps leg leg' es (some q) p rest r s (c, cp, inl (gone, same)) ends = cc
  chosen-Steps leg leg' es (some q) p rest r (e, h, n, u, m, f)
        (c, cp, inr (q', passed, after, is, split, current)) ends =
      concluded-Steps r (
        ends (
          subst (Held before []) (sym c) h,
          subst Unused (sym current) (append-Unused passed (q' ∷ after) (subst Unused split u)),
          subst (λ x. find x.resource_handler before ≡ none) (sym cp) m,
        ))

  choose_next_profile-Steps :
      (asks : ℕ → Ask) (leg : Leg Details Carried) (p : Profile Details)
      (rest : List (Profile Details))
      → Fresh before asks
      → IsSpent leg p rest
      → Steps (choose_next_profile out asks leg)
  unfolding choose_next_profile
  choose_next_profile-Steps asks leg p rest fresh s =
      let next = next_profile out false false leg in
      chosen-Steps leg next.0.0 next.0.1 next.1 p rest _ s
        (next_profile-Moved out false false leg p rest s.0)
        (λ ready. hunt-Ends out before (length next.0.0.ctx.current) asks _ fresh ready)

  abbrev pub HandledWell : Option (Handled Details Carried) → Type 0
  HandledWell none = Unit {0}
  HandledWell (some h) = IsHolding before h.leg

  try_profile-Same :
      (connect : Connect) (answer : ℕ × Text) (leg : Leg Details Carried) (p : Profile Details)
      → Same leg (try_profile out connect answer leg p).leg
  unfolding try_profile
  try_profile-Same started answer leg p = elim (Bool-cases (out.time_limit p.details == 0)) [
    | inl e ↦ rw e (refl, refl, refl)
    | inr e ↦ rw e (refl, refl, refl)
  ]
  try_profile-Same (internal_exception a b c d) answer leg p =
      elim (Bool-cases (out.time_limit p.details == 0)) [
        | inl e ↦ rw e (refl, refl, refl)
        | inr e ↦ rw e (refl, refl, refl)
      ]
  try_profile-Same (exception a b) answer leg p =
      elim (Bool-cases (out.time_limit p.details == 0)) [
        | inl e ↦ rw e (refl, refl, refl)
        | inr e ↦ rw e (refl, refl, refl)
      ]

  try_callee-Holding :
      (connect : Connect) (answer : ℕ × Text) (leg : Leg Details Carried)
      (ps : List (Profile Details))
      → IsHolding before leg
      → IsHolding before (try_callee out connect answer leg ps).leg
  unfolding try_callee
  try_callee-Holding connect answer leg [] h = h
  try_callee-Holding connect answer leg (p ∷ rest) h =
      Same-Holding before leg (try_profile out connect answer leg p).leg
        (try_profile-Same connect answer leg p) h

  chosen_next-Holding :
      (connect : Connect) (answer : ℕ × Text) (es : List (Effect Details Carried))
      (r : Option (Bool × Step Details Carried))
      → Steps r
      → HandledWell (Option.map (chosen_next out connect answer es) r)
  unfolding chosen_next
  chosen_next-Holding connect answer es none s = tt
  chosen_next-Holding connect answer es (some (true, (leg, es'))) s =
      try_callee-Holding connect answer leg leg.ctx.current s
  chosen_next-Holding connect answer es (some (false, (leg, es'))) s = s

  -- The current profile gives its resources back.
  give_back-Spent :
      (could_post : Bool) (leg : Leg Details Carried) (p : Profile Details)
      (rest : List (Profile Details))
      → leg.ctx.current ≡ p ∷ rest
      → IsHolding before leg
      → IsSpent (give_back could_post p.resource_handler leg).0 p rest
  unfolding give_back
  give_back-Spent could_post leg p rest e (h, n) =
      let (held, u) = subst (λ ps. HoldingAt before ps leg.control) e h in
      let free = put-Free before could_post leg.control p.resource_handler held in
      let c' = (give_back could_post p.resource_handler leg).0.control in
      (e, Held-Free before [] c' held.1 held.1 free, held.0, u, n, free)

  spent-Holding :
      (leg : Leg Details Carried) (p : Profile Details) (rest : List (Profile Details))
      → IsSpent leg p rest
      → IsHolding before leg
  spent-Holding leg p rest (e, h, n, u, m, f) = (
    subst (λ ps. HoldingAt before ps leg.control) (sym e)
        (Held-Free before p.resource_handler leg.control n h.1 f, u),
    m,
  )

  branch-Well :
      (b : Bool) (x : Handled Details Carried) (o : Option (Handled Details Carried))
      → IsHolding before x.leg
      → HandledWell o
      → HandledWell (if b then some x else o)
  branch-Well true x o h k = h
  branch-Well false x o h k = k

  prepend-Well :
      (es : List (Effect Details Carried)) (o : Option (Handled Details Carried))
      → HandledWell o
      → HandledWell (Option.map (prepend out es) o)
  prepend-Well es none h = tt
  prepend-Well es (some x) h = h

  go_on_hunting-Well :
      (could_post : Bool) (asks : ℕ → Ask) (connect : Connect) (answer : ℕ × Text)
      (leg : Leg Details Carried) (ps : List (Profile Details))
      → Fresh before asks
      → leg.ctx.current ≡ ps
      → IsHolding before leg
      → HandledWell (go_on_hunting out could_post asks connect answer leg ps)
  unfolding go_on_hunting
  go_on_hunting-Well could_post asks connect answer leg [] fresh e h = h
  go_on_hunting-Well could_post asks connect answer leg (p ∷ rest) fresh e h =
      let spent = give_back-Spent could_post leg p rest e h in
      let (given, es) = give_back could_post p.resource_handler leg in
      branch-Well (not leg.has_initial_invite)
        (record { leg = given; effects = es; answer = answer; threw = none })
        (Option.map (chosen_next out connect answer es) (choose_next_profile out asks given))
        (spent-Holding given p rest spent)
        (chosen_next-Holding connect answer es (choose_next_profile out asks given)
          (choose_next_profile-Steps asks given p rest fresh spent))

  note_refusal-Same :
      (r : Refused) (leg : Leg Details Carried) → Same leg (note_refusal out r leg).0
  unfolding note_refusal
  note_refusal-Same r leg = (refl, refl, refl)

  pub on_bleg_refused-Well :
      (r : Refused) (could_post : Bool) (asks : ℕ → Ask) (connect : Connect)
      (leg : Leg Details Carried)
      → Fresh before asks
      → IsHolding before leg
      → HandledWell (on_bleg_refused out r could_post asks connect leg)
  unfolding on_bleg_refused
  on_bleg_refused-Well r could_post asks connect leg fresh h =
      let cleared = record leg { duration_timer = none } in
      let noted = note_refusal out r cleared in
      let held = Same-Holding before cleared noted.0 (note_refusal-Same r cleared) h in
      let hunted =
        go_on_hunting-Well could_post asks connect noted.1 noted.0 noted.0.ctx.current fresh refl
          held in
      branch-Well (not leg.a_leg) _ _ h (
        branch-Well (not (is_nil leg.other_id) && not (text_eq r.from_tag leg.other_id)) _ _ h (
          branch-Well (not leg.has_ctx) _ _ h
            (branch-Well noted.2 _ _ held (prepend-Well (remove_fake_ringing ∷ []) _ hunted))))

  on_server_shutdown-Holding :
      (could_post : Bool) (leg : Leg Details Carried)
      → IsHolding before leg
      → IsHolding before (on_server_shutdown out could_post leg).0
  unfolding on_server_shutdown
  on_server_shutdown-Holding could_post leg h = elim (Bool-cases leg.has_ctx) [
    | inr gone ↦ rw gone h
    | inl here ↦ rw here (
        give_back-Holding before could_post leg.call_profile.resource_handler
          (note_ts out (codes "ServerShutdown") 200 leg) h.1 h)
  ]

-- The last leg of the call has given everything back.
module _ {Details Carried : Type 0} (before : Map Text HandlersEntry) where
  release_last-Free :
      (could_post : Bool) (leg : Leg Details Carried) (ps : List (Profile Details))
      → HoldingAt before ps leg.control
      → Free before (release_last could_post leg ps).0.control
  unfolding release_last give_back
  release_last-Free could_post leg [] h = Held-nil-Free before leg.control h
  release_last-Free could_post leg (p ∷ rest) (h, u) =
      put-Free before could_post leg.control p.resource_handler h

  pub on_before_destroy-Free :
      (could_post : Bool) (leg : Leg Details Carried)
      → leg.has_ctx ≡ true
      → leg.references ≤ 1
      → IsHolding before leg
      → Free before (on_before_destroy could_post leg).0.control
  unfolding on_before_destroy
  on_before_destroy-Free could_post leg here last h =
      let left = record leg { references = leg.references - 1; has_ctx = false } in
      let zero_left : (leg.references - 1 == 0) ≡ true = ground arith in
      let free = release_last-Free could_post left left.ctx.current h.0 in rw (here, zero_left) free
