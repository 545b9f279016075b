-- ===== src/SbcCallLeg/Life.antt =====
-- src/SBCCallLeg.cpp: the life of a call: its first profile, the refusals by its callees, and its end.
use mathlib.Core.Option
use sems_yeti.Prelude.{ℕ, ◌+◌, ◌≤◌, Bool, List, [], ◌∷◌, ◌++◌, Option, none, some, length, arith}
use sems_yeti.Prelude.Classes.{Text, text_key}
use sems_yeti.Prelude.Map.{Map}
use sems_yeti.Control.{HandlersEntry}
use sems_yeti.SbcCallLeg.{Effect, Ask, Leg, Outside, Step}
use sems_yeti.SbcCallLeg.Holding.{Fresh, IsHolding}
use sems_yeti.SbcCallLeg.Fewer.{callees, callees-append}
use sems_yeti.SbcCallLeg.Refusal.{Refused, Connect, Handled, on_bleg_refused}
use sems_yeti.SbcCallLeg.Within.{Within, on_bleg_refused-Within}

-- A refusal as it arrives, with the surroundings of its handler.
pub record Event (Details : Type 0) : Type 0 where
  pub out : Outside Details
  pub refusal : Refused
  pub could_post : Bool
  pub asks : ℕ → Ask
  pub connect : Connect

module _ {Details : Type 0} where
  -- The identifiers that would be given are not those of handlers that were there before the call.
  abbrev pub AllFresh : Map Text HandlersEntry → List (Event Details) → Type 0
  AllFresh before [] = Unit {0}
  AllFresh before (e ∷ es) = Fresh before e.asks × AllFresh before es

module _ {Details Carried : Type 0} where
  abbrev pub behind : List (Effect Details Carried) → Step Details Carried → Step Details Carried
  behind es (leg, fs) = (leg, es ++ fs)

  -- One refusal after the other; `none` if a handler does not return.
  unfoldable pub run : List (Event Details) → Leg Details Carried → Option (Step Details Carried)
  unfolding on_bleg_refused
  run [] leg = some (leg, [])
  run (e ∷ es) leg = elim (on_bleg_refused e.out e.refusal e.could_post e.asks e.connect leg) [
    | none ↦ none
    | some h ↦ Option.map (behind h.effects) (run es h.leg)
  ]

  abbrev pub EndsWithin : ℕ → Option (Step Details Carried) → Type 0
  EndsWithin k none = ⊥
  EndsWithin k (some (leg, es)) = callees es + length leg.ctx.current ≤ k

  behind-EndsWithin :
      (k : ℕ) (h : Handled Details Carried) (r : Option (Step Details Carried))
      → callees h.effects + length h.leg.ctx.current ≤ k
      → EndsWithin (length h.leg.ctx.current) r
      → EndsWithin k (Option.map (behind h.effects) r)
  behind-EndsWithin k h none w e = e
  behind-EndsWithin k h (some (leg, es)) w e = omega (arith, callees-append h.effects es)

  step-EndsWithin :
      (out : Outside Details) (k : ℕ) (o : Option (Handled Details Carried))
      (next : Leg Details Carried → Option (Step Details Carried))
      → Within out k o
      → ((leg : Leg Details Carried) → EndsWithin (length leg.ctx.current) (next leg))
      → EndsWithin k (elim o [ none ↦ none | some h ↦ Option.map (behind h.effects) (next h.leg) ])
  step-EndsWithin out k none next w n = absurd w
  step-EndsWithin out k (some h) next w n = behind-EndsWithin k h (next h.leg) w (n h.leg)

  -- Whatever legs refuse, in whatever order, and whatever the resources, the translations and the starts of
  -- callees do: the handler of each refusal returns, and the callees that are started by the refusals are,
  -- together with the profiles left from the current one on, at most as many as the profiles from the
  -- current one on were at first. So the hunting for a route ends.
  pub refusals_end :
      (es : List (Event Details)) (leg : Leg Details Carried)
      → EndsWithin (length leg.ctx.current) (run es leg)
  unfolding run
  refusals_end [] leg = omega arith
  refusals_end (e ∷ es) leg =
      step-EndsWithin e.out (length leg.ctx.current)
        (on_bleg_refused e.out e.refusal e.could_post e.asks e.connect leg) (run es)
        (on_bleg_refused-Within e.out e.refusal e.could_post e.asks e.connect leg)
        (λ leg'. refusals_end es leg')

module _ {Details Carried : Type 0} (before : Map Text HandlersEntry) where
  abbrev Holds : Option (Step Details Carried) → Type 0
  Holds none = Unit {0}
  Holds (some (leg, es)) = IsHolding before leg
