-- ===== src/SbcCallLeg/Holding.antt =====
-- src/SBCCallLeg.cpp: the profile that holds the resources of a call.
use mathlib.Core.Path.{subst}
use sems_yeti.Prelude.{
  ℕ, ◌≡◌, refl, sym, ◌≢◌, ◌⊎◌, inl, inr, Bool, List, [], ◌∷◌, ◌++◌, Option, none, some,
  Option-cases,
}
use sems_yeti.Prelude.Classes.{Text, text_key}
use sems_yeti.Prelude.Map.{Map, find}
use sems_yeti.Control.{put, Control, HandlersEntry}
use sems_yeti.CallCtx.{Profile, get_next_profile}
use sems_yeti.CallCtx.Order.{get_next_profile_order, get_next_profile-keeps}
use sems_yeti.SbcCallLeg.{Ask, Leg, Outside, Step, give_back, next_profile, next_profile_at}
use sems_yeti.SbcCallLeg.Held.{Held, put-Held}

-- The identifiers that the attempts would give are new.
abbrev pub Fresh : Map Text HandlersEntry → (ℕ → Ask) → Type 0
Fresh before asks = (n : ℕ) → ((asks n).new_id ≢ []) × (find (asks n).new_id before ≡ none)

module _ {Details : Type 0} where
  abbrev pub Unused : List (Profile Details) → Type 0
  Unused [] = Unit {0}
  Unused (p ∷ ps) = (p.resource_handler ≡ []) × Unused ps

  abbrev pub HoldingAt : Map Text HandlersEntry → List (Profile Details) → Control → Type 0
  HoldingAt before [] c = Held before [] c
  HoldingAt before (p ∷ rest) c = Held before p.resource_handler c × Unused rest

  pub append-Unused : (ps qs : List (Profile Details)) → Unused (ps ++ qs) → Unused qs
  append-Unused [] qs u = u
  append-Unused (p ∷ ps) qs u = append-Unused ps qs u.1

  pub Unused-HoldingAt :
      (before : Map Text HandlersEntry) (ps : List (Profile Details)) (c : Control)
      → Held before [] c
      → Unused ps
      → HoldingAt before ps c
  Unused-HoldingAt before [] c h u = h
  Unused-HoldingAt before (p ∷ rest) c h u = (subst (λ k. Held before k c) (sym u.0) h, u.1)

  put-HoldingAt :
      (before : Map Text HandlersEntry) (could_post : Bool) (k : Text) (ps : List (Profile Details))
      (c : Control)
      → find k before ≡ none
      → HoldingAt before ps c
      → HoldingAt before ps (put could_post c k).0
  put-HoldingAt before could_post k [] c m h = put-Held before could_post c [] k m h
  put-HoldingAt before could_post k (p ∷ rest) c m (h, u) =
      (put-Held before could_post c p.resource_handler k m h, u)

module _ {Details Carried : Type 0} where
  -- Of the call, at most the handler of the current profile is among the handlers, the profiles behind it
  -- have none, and the call profile's handler is of this call.
  abbrev pub IsHolding : Map Text HandlersEntry → Leg Details Carried → Type 0
  IsHolding before leg =
      HoldingAt before leg.ctx.current leg.control
      × (find leg.call_profile.resource_handler before ≡ none)

  -- Nothing of the call is among the handlers, and no profile from the current one on has a handler.
  abbrev pub IsReady : Map Text HandlersEntry → Leg Details Carried → Type 0
  IsReady before leg =
      Held before [] leg.control
      × Unused leg.ctx.current
      × (find leg.call_profile.resource_handler before ≡ none)

  pub Ready-Holding :
      (before : Map Text HandlersEntry) (leg : Leg Details Carried)
      → IsReady before leg
      → IsHolding before leg
  Ready-Holding before leg (h, u, n) = (Unused-HoldingAt before leg.ctx.current leg.control h u, n)

  -- The next profile of a call, if there is one, is behind the current one; if there is none, the context
  -- stays as it is.
  abbrev pub Moved :
      Leg Details Carried
      → List (Profile Details)
      → Step Details Carried × Option (Profile Details)
      → Type 0
  Moved leg rest ((leg', es), next) =
      (leg'.control ≡ leg.control)
      × (leg'.call_profile ≡ leg.call_profile)
      × (((next ≡ none) × (leg'.ctx ≡ leg.ctx))
          ⊎ ((q : Profile Details) × (passed : List (Profile Details)) × (after : List
                (Profile Details))
              × (next ≡ some q)
              × (rest ≡ passed ++ q ∷ after)
              × (leg'.ctx.current ≡ q ∷ after)))

  pub next_profile_at-Moved :
      (out : Outside Details) (early failover : Bool) (leg : Leg Details Carried)
      (p : Profile Details) (rest : List (Profile Details))
      → Moved leg rest (next_profile_at out early failover leg (p ∷ rest))
  unfolding next_profile_at
  next_profile_at-Moved out early failover leg p rest =
      let c = get_next_profile out.env out.clock early failover leg.ctx leg.translator p rest in
      (
        refl,
        refl,
        elim (Option-cases c.profile) [
          | inl n ↦ inl (
            n,
            get_next_profile-keeps out.env out.clock early failover leg.ctx leg.translator p rest n,
          )
          | inr (q, chosen) ↦
              let found =
                get_next_profile_order out.env out.clock early failover leg.ctx leg.translator p q
                  rest chosen in
              inr (q, found.0, found.1, chosen, found.2, found.3)
        ],
      )

  pub next_profile-Moved :
      (out : Outside Details) (early failover : Bool) (leg : Leg Details Carried)
      (p : Profile Details) (rest : List (Profile Details))
      → leg.ctx.current ≡ p ∷ rest
      → Moved leg rest (next_profile out early failover leg)
  unfolding next_profile
  next_profile-Moved out early failover leg p rest e =
      subst (λ ps. Moved leg rest (next_profile_at out early failover leg ps)) (sym e)
        (next_profile_at-Moved out early failover leg p rest)

  -- A ready leg stays ready.
  pub Moved-Ready :
      (before : Map Text HandlersEntry) (leg : Leg Details Carried) (p : Profile Details)
      (rest : List (Profile Details)) (r : Step Details Carried × Option (Profile Details))
      → leg.ctx.current ≡ p ∷ rest
      → IsReady before leg
      → Moved leg rest r
      → IsReady before r.0.0
  Moved-Ready before leg p rest ((leg', es), next) e (h, u, n) (c, cp, inl (gone, same)) = (
    subst (Held before []) (sym c) h,
    subst (λ x. Unused x.current) (sym same) u,
    subst (λ x. find x.resource_handler before ≡ none) (sym cp) n,
  )
  Moved-Ready before leg p rest ((leg', es), next) e (h, u, n)
        (c, cp, inr (q, passed, after, is, split, current)) =
      (
        subst (Held before []) (sym c) h,
        subst Unused (sym current)
            (append-Unused passed (q ∷ after) (subst Unused split (subst Unused e u).1)),
        subst (λ x. find x.resource_handler before ≡ none) (sym cp) n,
      )

  -- The parts of a leg that the resources depend on are the same.
  abbrev pub Same : Leg Details Carried → Leg Details Carried → Type 0
  Same leg leg' =
      (leg'.control ≡ leg.control)
      × (leg'.ctx.current ≡ leg.ctx.current)
      × (leg'.call_profile ≡ leg.call_profile)

  pub Same-Ready :
      (before : Map Text HandlersEntry) (leg leg' : Leg Details Carried)
      → Same leg leg'
      → IsReady before leg
      → IsReady before leg'
  Same-Ready before leg leg' (c, l, p) (h, u, n) = (
    subst (Held before []) (sym c) h,
    subst Unused (sym l) u,
    subst (λ x. find x.resource_handler before ≡ none) (sym p) n,
  )

  pub Same-Holding :
      (before : Map Text HandlersEntry) (leg leg' : Leg Details Carried)
      → Same leg leg'
      → IsHolding before leg
      → IsHolding before leg'
  Same-Holding before leg leg' (c, l, p) (h, n) = (
    subst (HoldingAt before leg'.ctx.current) (sym c)
        (subst (λ ps. HoldingAt before ps leg.control) (sym l) h),
    subst (λ x. find x.resource_handler before ≡ none) (sym p) n,
  )

  -- A handler of this call is given back, whichever it is.
  pub give_back-Holding :
      (before : Map Text HandlersEntry) (could_post : Bool) (k : Text) (leg : Leg Details Carried)
      → find k before ≡ none
      → IsHolding before leg
      → IsHolding before (give_back could_post k leg).0
  unfolding give_back
  give_back-Holding before could_post k leg m (h, n) =
      (put-HoldingAt before could_post k leg.ctx.current leg.control m h, n)
