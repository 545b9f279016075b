-- ===== src/Resource/Groups.antt =====
-- The abstract view of a resource list: groups of alternatives. A resource whose
-- `failover_to_next` is set has its alternative behind it.
use sems_yeti.Prelude.{
  ◌≡◌, refl, inl, inr, true, false, List, [], ◌∷◌, map, if◌then◌else◌, Bool-cases,
}
use sems_yeti.Prelude.Int.{ℤ}
use sems_yeti.Resource.{Resource, close_back}

-- The last resource is nobody's first choice only.
abbrev pub IsClosed : List Resource → Type 0
IsClosed [] = Unit {0}
IsClosed (r ∷ []) = r.failover_to_next ≡ false
IsClosed (r ∷ s ∷ rs) = IsClosed (s ∷ rs)

pub close_back-IsClosed : (rs : List Resource) → IsClosed (close_back rs)
unfolding close_back
close_back-IsClosed [] = tt
close_back-IsClosed (r ∷ []) = refl
close_back-IsClosed (r ∷ s ∷ []) = refl
close_back-IsClosed (r ∷ s ∷ t ∷ rs) = close_back-IsClosed (s ∷ t ∷ rs)

-- A resource with the use that Redis reported of it.
abbrev pub Sample : Type 0
Sample = ℤ × Resource

abbrev pub resources : List Sample → List Resource
resources = map (λ s. s.1)

abbrev pub values : List Sample → List ℤ
values = map (λ s. s.0)

pub attach : Sample → List (List Sample) → List (List Sample)
attach s [] = (s ∷ []) ∷ []
attach s (g ∷ gs) = (s ∷ g) ∷ gs

unfoldable pub groups : List Sample → List (List Sample)
unfolding attach
groups [] = []
groups (s ∷ ss) = let gs = groups ss in if s.1.failover_to_next then attach s gs else (s ∷ []) ∷ gs

-- A group is never empty.
pub groups-cons :
    (s : Sample) (ss : List Sample)
    → (g : List Sample) × (gs : List (List Sample)) × (groups (s ∷ ss) ≡ (s ∷ g) ∷ gs)
unfolding groups
groups-cons s ss = elim (Bool-cases s.1.failover_to_next) [
  | inr e ↦ ([], groups ss, rw e)
  | inl e ↦ shape (groups ss) e
]
  where
    shape :
        (gs : List (List Sample))
        → s.1.failover_to_next ≡ true
        → (g : List Sample) × (hs : List (List Sample)) × ((if s.1.failover_to_next
              then attach s gs
              else (s ∷ []) ∷ gs)
            ≡ (s ∷ g) ∷ hs)
    shape [] e = ([], [], rw e)
    shape (h ∷ hs) e = (h, hs, rw e)

pub groups-last :
    (s : Sample) (ss : List Sample)
    → s.1.failover_to_next ≡ false
    → groups (s ∷ ss) ≡ (s ∷ []) ∷ groups ss
unfolding groups
groups-last s ss e = rw e

pub groups-attach :
    (s : Sample) (ss : List Sample) (g : List Sample) (gs : List (List Sample))
    → s.1.failover_to_next ≡ true
    → groups ss ≡ g ∷ gs
    → groups (s ∷ ss) ≡ (s ∷ g) ∷ gs
unfolding groups
groups-attach s ss g gs e h = rw (e, h)
