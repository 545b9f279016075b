-- ===== src/SbcCallLeg/Within.antt =====
-- src/SBCCallLeg.cpp: the handler of a refusal returns, and each callee that it starts uses up profiles.
use mathlib.Core.Option
use mathlib.Core.Path.{subst}
use sems_yeti.Prelude.{
  ℕ, suc, ◌+◌, ◌==◌, ◌≡◌, refl, sym, ap, ◌∙◌, ◌≤◌, ◌<◌, inl, inr, Bool, true, false, not, ◌&&◌,
  List, [], ◌∷◌, ◌++◌, Option, none, some, Bool-cases, if◌then◌else◌, length, is_nil, arith,
}
use sems_yeti.Prelude.Classes.{Text, text_eq, text_key}
use sems_yeti.Control
use sems_yeti.Control.{ResourceConfig, HandlersEntry}
use sems_yeti.Resource.{Resource}
use sems_yeti.CallCtx.{Profile}
use sems_yeti.SbcCallLeg.{
  Effect, remove_fake_ringing, Ask, Leg, Outside, Step, next_profile, give_back, unset_config,
  translate_resource,
}
use sems_yeti.SbcCallLeg.Holding.{Moved, next_profile-Moved}
use sems_yeti.SbcCallLeg.Hunting.{Hunt, hunt, conclude, choose_next_profile, use_current}
use sems_yeti.SbcCallLeg.Fewer.{
  callees, callees-append, callees-redis, next_profile-callees, Fewer, Returns, hunt-Returns,
  Moved-length,
}
use sems_yeti.SbcCallLeg.Refusal.{
  Refused, Connect, started, internal_exception, exception, Handled, note_refusal, try_profile,
  try_callee, chosen_next, go_on_hunting, on_bleg_refused, prepend,
}

module _ {Details Carried : Type 0} (out : Outside Details) where
  -- The choice returns, without a callee; a profile that is chosen lies behind the current one.
  abbrev Chosen : ℕ → Option (Bool × Step Details Carried) → Type 0
  Chosen k none = ⊥
  Chosen k (some (true, (leg, es))) = (length leg.ctx.current < k) × (callees es ≡ 0)
  Chosen k (some (false, (leg, es))) = (length leg.ctx.current ≤ k) × (callees es ≡ 0)

  use_current-current :
      (ps : List (Profile Details)) (leg : Leg Details Carried)
      → (use_current out ps leg).ctx.current ≡ leg.ctx.current
  use_current-current [] leg = refl
  use_current-current (p ∷ rest) leg = refl

  callees-translate_resource :
      (rc : ResourceConfig) (rli : Option Resource) (leg : Leg Details Carried)
      → callees (translate_resource out rc rli leg).0.1 ≡ 0
  unfolding translate_resource
  callees-translate_resource rc none leg = refl
  callees-translate_resource rc (some r) leg = refl

  conclude-Chosen :
      (k : ℕ) (chosen : Bool) (h : Hunt Details Carried)
      → Fewer k h
      → Chosen (suc k) (some (conclude out (chosen, h)))
  unfolding conclude
  conclude-Chosen k true h (l, c) =
      (omega (arith, ap length (use_current-current h.leg.ctx.current h.leg)), c)
  conclude-Chosen k false h (l, c) =
      let es = (translate_resource out h.config h.rli h.leg).0.1 in
      (
        omega arith,
        callees-append h.effects es
            ∙ omega (arith, c, callees-translate_resource h.config h.rli h.leg),
      )

  concluded-Chosen :
      (k : ℕ) (r : Option (Bool × Hunt Details Carried))
      → Returns out k r
      → Chosen (suc k) (elim r [ none ↦ none | some h ↦ some (conclude out h) ])
  concluded-Chosen k none e = absurd e
  concluded-Chosen k (some (chosen, h)) e = conclude-Chosen k chosen h e

  widen-Chosen :
      (k l : ℕ) (r : Option (Bool × Step Details Carried)) → k ≤ l → Chosen k r → Chosen l r
  widen-Chosen k l none w h = h
  widen-Chosen k l (some (true, (leg, es))) w (h, c) = (omega arith, c)
  widen-Chosen k l (some (false, (leg, es))) w (h, c) = (omega arith, c)

  next-Chosen :
      (leg leg' : Leg Details Carried) (es : List (Effect Details Carried))
      (next : Option (Profile Details)) (p : Profile Details) (rest : List (Profile Details))
      (r : Option (Bool × Hunt Details Carried))
      → leg.ctx.current ≡ p ∷ rest
      → Moved leg rest ((leg', es), next)
      → callees es ≡ 0
      → (0 < length leg'.ctx.current → Returns out (length leg'.ctx.current) r)
      → Chosen (suc (length rest)) (elim next [
        | none ↦ some (false, (leg', es))
        | some q ↦ elim r [ none ↦ none | some h ↦ some (conclude out h) ]
      ])
  next-Chosen leg leg' es none p rest r e moved c returns =
      elim (Moved-length leg leg' p rest es none e moved) [
        | inl (gone, same) ↦ (omega arith, c)
        | inr (q, chosen, some_left, fewer) ↦ absurd (cc)
      ]
  next-Chosen leg leg' es (some q) p rest r e moved c returns =
      elim (Moved-length leg leg' p rest es (some q) e moved) [
        | inl (gone, same) ↦ absurd (cc)
        | inr (q', chosen, some_left, fewer) ↦
            widen-Chosen (suc (length leg'.ctx.current)) (suc (length rest))
              (elim r [ none ↦ none | some h ↦ some (conclude out h) ]) (omega arith)
              (concluded-Chosen (length leg'.ctx.current) r (returns some_left))
      ]

  choose_next_profile-Chosen :
      (asks : ℕ → Ask) (leg : Leg Details Carried) (p : Profile Details)
      (rest : List (Profile Details))
      → leg.ctx.current ≡ p ∷ rest
      → Chosen (suc (length rest)) (choose_next_profile out asks leg)
  unfolding choose_next_profile
  choose_next_profile-Chosen asks leg p rest e =
      let next = next_profile out false false leg in
      let c = next_profile-callees out false false leg in
      let k = length next.0.0.ctx.current in
      let begin : Hunt Details Carried = record {
        leg = next.0.0;
        effects = next.0.1;
        config = unset_config;
        rli = none;
      } in
      next-Chosen leg next.0.0 next.0.1 next.1 p rest (hunt out k asks begin) e
        (next_profile-Moved out false false leg p rest e) c
        (λ some_left. hunt-Returns out k asks begin some_left (omega arith) c)

  -- The handler returns; callees that it starts and profiles that are left are as many as there were.
  abbrev pub Within : ℕ → Option (Handled Details Carried) → Type 0
  Within k none = ⊥
  Within k (some h) = callees h.effects + length h.leg.ctx.current ≤ k

  try_profile-Within :
      (connect : Connect) (answer : ℕ × Text) (leg : Leg Details Carried) (p : Profile Details)
      → let h = try_profile out connect answer leg p in
        (callees h.effects ≤ 1) × (h.leg.ctx.current ≡ leg.ctx.current)
  unfolding try_profile
  try_profile-Within started answer leg p = elim (Bool-cases (out.time_limit p.details == 0)) [
    | inl e ↦ (omega arith, rw e refl)
    | inr e ↦ (omega arith, rw e refl)
  ]
  try_profile-Within (internal_exception a b c d) answer leg p =
      elim (Bool-cases (out.time_limit p.details == 0)) [
        | inl e ↦ (omega arith, rw e refl)
        | inr e ↦ (omega arith, rw e refl)
      ]
  try_profile-Within (exception a b) answer leg p =
      elim (Bool-cases (out.time_limit p.details == 0)) [
        | inl e ↦ (omega arith, rw e refl)
        | inr e ↦ (omega arith, rw e refl)
      ]

  try_callee-Within :
      (connect : Connect) (answer : ℕ × Text) (leg : Leg Details Carried)
      (ps : List (Profile Details))
      → let h = try_callee out connect answer leg ps in
        (callees h.effects ≤ 1) × (h.leg.ctx.current ≡ leg.ctx.current)
  unfolding try_callee
  try_callee-Within connect answer leg [] = (omega arith, refl)
  try_callee-Within connect answer leg (p ∷ rest) = try_profile-Within connect answer leg p

  chosen_next-Within :
      (k : ℕ) (connect : Connect) (answer : ℕ × Text) (es : List (Effect Details Carried))
      (r : Option (Bool × Step Details Carried))
      → callees es ≡ 0
      → Chosen k r
      → Within k (Option.map (chosen_next out connect answer es) r)
  unfolding chosen_next
  chosen_next-Within k connect answer es none c h = absurd h
  chosen_next-Within k connect answer es (some (true, (leg, es'))) c (l, c') =
      let h = try_callee out connect answer leg leg.ctx.current in
      let (one, same) = try_callee-Within connect answer leg leg.ctx.current in
      omega (arith, callees-append (es ++ es') h.effects, callees-append es es', ap length same)
  chosen_next-Within k connect answer es (some (false, (leg, es'))) c (l, c') =
      omega (arith, callees-append es es')

  branch-Within :
      (k : ℕ) (b : Bool) (x : Handled Details Carried) (o : Option (Handled Details Carried))
      → callees x.effects + length x.leg.ctx.current ≤ k
      → Within k o
      → Within k (if b then some x else o)
  branch-Within k true x o h m = h
  branch-Within k false x o h m = m

  prepend-Within :
      (k : ℕ) (o : Option (Handled Details Carried))
      → Within k o
      → Within k (Option.map (prepend out (remove_fake_ringing ∷ [])) o)
  prepend-Within k none h = h
  prepend-Within k (some x) h = h

  callees-give_back :
      (could_post : Bool) (handler : Text) (leg : Leg Details Carried)
      → (callees (give_back could_post handler leg).1 ≡ 0)
        × ((give_back could_post handler leg).0.ctx.current ≡ leg.ctx.current)
  unfolding give_back
  callees-give_back could_post handler leg =
      (callees-redis Details Carried (Control.put could_post leg.control handler).1, refl)

  go_on_hunting-Within :
      (could_post : Bool) (asks : ℕ → Ask) (connect : Connect) (answer : ℕ × Text)
      (leg : Leg Details Carried) (ps : List (Profile Details))
      → leg.ctx.current ≡ ps
      → Within (length leg.ctx.current) (go_on_hunting out could_post asks connect answer leg ps)
  unfolding go_on_hunting
  go_on_hunting-Within could_post asks connect answer leg [] e = omega arith
  go_on_hunting-Within could_post asks connect answer leg (p ∷ rest) e =
      let (given, es) = give_back could_post p.resource_handler leg in
      let (c, same) = callees-give_back could_post p.resource_handler leg in
      subst (λ n. Within n (go_on_hunting out could_post asks connect answer leg (p ∷ rest)))
        (sym (ap length e))
        (branch-Within (suc (length rest)) (not leg.has_initial_invite)
          (record { leg = given; effects = es; answer = answer; threw = none })
          (Option.map (chosen_next out connect answer es) (choose_next_profile out asks given))
          (omega (arith, ap length (same ∙ e)))
          (chosen_next-Within (suc (length rest)) connect answer es
            (choose_next_profile out asks given) c
            (choose_next_profile-Chosen asks given p rest (same ∙ e))))

  pub on_bleg_refused-Within :
      (r : Refused) (could_post : Bool) (asks : ℕ → Ask) (connect : Connect)
      (leg : Leg Details Carried)
      → Within (length leg.ctx.current) (on_bleg_refused out r could_post asks connect leg)
  unfolding on_bleg_refused note_refusal
  on_bleg_refused-Within r could_post asks connect leg =
      let k = length leg.ctx.current in
      let cleared = record leg { duration_timer = none } in
      let noted = note_refusal out r cleared in
      branch-Within k (not leg.a_leg) _ _ (omega arith) (
        branch-Within k (not (is_nil leg.other_id) && not (text_eq r.from_tag leg.other_id)) _ _
          (omega arith)
          (branch-Within k (not leg.has_ctx) _ _ (omega arith) (
            branch-Within k noted.2 _ _ (omega arith) (
              prepend-Within k _ (
                go_on_hunting-Within could_post asks connect noted.1 noted.0 noted.0.ctx.current
                  refl)))))
