-- ===== src/SbcCallLeg/Held.antt =====
-- src/resources/ResourceControl.cpp: what one call changes of the handlers.
use mathlib.Core.Path.{subst}
use sems_yeti.Prelude.{
  ◌≡◌, refl, sym, ap, ◌∙◌, ◌≢◌, ◌⊎◌, inl, inr, Bool, false, List, [], ◌∷◌, Option, none,
  if◌then◌else◌, arith, Bool-cases, Option-cases,
}
use sems_yeti.Prelude.Classes.{Text, text_eq, text_eq_iff, text_key}
use sems_yeti.Prelude.Map.{Map, find, find-erase, find-emplace, same_refl}
use sems_yeti.Resource.{Resource}
use sems_yeti.Sequences.Check.{CheckResources}
use sems_yeti.Redis.{is_empty}
use sems_yeti.Control
use sems_yeti.Control.{Control, HandlersEntry, ctl_ok, put, put_entry, ResourceConfig}
use sems_yeti.Control.Handlers.{get-Granted}

-- As far as the handlers go, the container is what it was before the call but for the handler `h`, which is
-- of the call.
abbrev pub Held : Map Text HandlersEntry → Text → Control → Type 0
Held before h c =
    (find h before ≡ none)
    × (find [] before ≡ none)
    × (find [] c.handlers ≡ none)
    × ((j : Text) → text_eq h j ≡ false → find j c.handlers ≡ find j before)

-- Nothing of the call is left among the handlers.
abbrev pub Free : Map Text HandlersEntry → Control → Type 0
Free before c = (j : Text) → find j c.handlers ≡ find j before

put-find :
    (could_post : Bool) (c : Control) (h j : Text)
    → find j (put could_post c h).0.handlers ≡ (
        if is_empty h then find j c.handlers else (if text_eq h j then none else find j c.handlers))
unfolding put put_entry
put-find could_post c [] j = refl
put-find could_post c (b ∷ h) j = elim (Option-cases (find (b ∷ h) c.handlers)) [
  | inl q ↦ rw q (ground (arith, text_eq_iff (b ∷ h) j, q))
  | inr (e, q) ↦ rw q (ground (arith, find-erase (b ∷ h) j c.handlers))
]

module _ (before : Map Text HandlersEntry) where
  pub Held-Free :
      (h : Text) (c : Control)
      → find h before ≡ none
      → find [] before ≡ none
      → Free before c
      → Held before h c
  Held-Free h c n e f = (n, e, f [] ∙ e, λ j _. f j)

  put-own :
      (could_post : Bool) (c : Control) (h : Text)
      → Held before h c
      → find h (put could_post c h).0.handlers ≡ find h before
  put-own could_post c [] (n, e, f, others) = put-find could_post c [] [] ∙ f ∙ sym e
  put-own could_post c (b ∷ h) (n, e, f, others) =
      put-find could_post c (b ∷ h) (b ∷ h) ∙ rw (same_refl (b ∷ h)) (sym n)

  -- The call's own handler is given back.
  pub put-Free :
      (could_post : Bool) (c : Control) (h : Text)
      → Held before h c
      → Free before (put could_post c h).0
  put-Free could_post c h held j = elim (Bool-cases (text_eq h j)) [
    | inr other ↦ put-find could_post c h j ∙ ground (arith, held.3 j other)
    | inl own ↦
        subst (λ k. find k (put could_post c h).0.handlers ≡ find k before)
          ((text_eq_iff h j).0 own) (put-own could_post c h held)
  ]

  -- A handler that was not there before the call is given back, whichever it is.
  pub put-Held :
      (could_post : Bool) (c : Control) (h k : Text)
      → find k before ≡ none
      → Held before h c
      → Held before h (put could_post c k).0
  put-Held could_post c h k m (n, e, f, others) = (
    n,
    e,
    put-find could_post c k [] ∙ ground (arith, f),
    λ j other. put-find could_post c k j ∙ ground (arith, others j other, m, text_eq_iff k j),
  )

pub Held-nil-Free :
    (before : Map Text HandlersEntry) (c : Control) → Held before [] c → Free before c
Held-nil-Free before c (n, e, f, others) [] = f ∙ sym e
Held-nil-Free before c (n, e, f, others) (b ∷ t) = others (b ∷ t) refl

-- Resources are asked for: the handler of the answer is the only one of the call; there is none unless
-- the answer is RES_CTL_OK.
pub take-Held :
    (before : Map Text HandlersEntry) (could_post : Bool) (c : Control) (rl : List Resource)
    (handler owner_tag : Text) (config : ResourceConfig) (new_id : Text)
    (answer : Option CheckResources)
    → Held before [] c
    → handler ≡ []
    → (new_id ≢ []) × (find new_id before ≡ none)
    → let g = Control.get could_post c rl handler owner_tag config new_id answer in
      Held before g.handler g.control × ((g.handler ≡ []) ⊎ (g.response ≡ ctl_ok))
take-Held before could_post c rl handler owner_tag config new_id answer h none_yet (named, fresh) =
    let free = Held-nil-Free before c h in
    let c' = (Control.get could_post c rl handler owner_tag config new_id answer).control in
    elim (get-Granted could_post c rl handler owner_tag config new_id answer) [
      | inr (no_grant, (same, kept, connection, nothing)) ↦ (
        subst (λ k. Held before k c') (sym (same ∙ none_yet))
            (h.0, h.1, ap (find []) kept ∙ h.2, λ j other. ap (find j) kept ∙ free j),
        inl (same ∙ none_yet),
      )
      | inl (grant, (ok, given, kept)) ↦ (
        subst (λ k. Held before k c') (sym given)
            (
              fresh,
              h.1,
              ap (find []) kept
                  ∙ find-emplace new_id [] _ c.handlers
                  ∙ ground (arith, h.2, text_eq_iff new_id []),
              λ j other. ap (find j) kept ∙ find-emplace new_id j _ c.handlers ∙ rw other (free j),
            ),
        inr ok,
      )
    ]
