-- ===== src/Redis/Choice.antt =====
-- The loop of `get` against the view of a list as groups of alternatives.
use sems_yeti.Prelude.{
  ◌≡◌, refl, sym, ap, ◌∙◌, inl, inr, Bool, true, false, not, ◌||◌, List, [], ◌∷◌, ◌++◌,
  if◌then◌else◌, Bool-cases,
}
use sems_yeti.Prelude.Int.{leb_ℤ}
use sems_yeti.Resource.Groups.{
  IsClosed, Sample, resources, values, groups, groups-cons, groups-last, groups-attach,
}
use sems_yeti.Resource.{Resource}
use sems_yeti.Redis.Select.{
  CheckState, check_normal, check_failover, check_skip, Checked, available, overloaded, push,
  activate, skip_rest, check,
}

-- The use is below the limit.
abbrev pub fits : Sample → Bool
fits (v, r) = not (leb_ℤ r.limit v)

pub some_fits : List Sample → Bool
some_fits [] = false
some_fits (s ∷ g) = fits s || some_fits g

-- A group with its first fitting resource active and all others as they were.
pub pick : List Sample → List Resource
pick [] = []
pick (s ∷ g) = if fits s then activate s.1 ∷ resources g else s.1 ∷ pick g

pub last_or : Resource → List Sample → Resource
last_or r [] = r
last_or r (s ∷ g) = last_or s.1 g

abbrev prepend : List Resource → Checked → Checked
prepend rs (available ss) = available (rs ++ ss)
prepend rs (overloaded r ss) = overloaded r (rs ++ ss)

pub all_resources : List (List Sample) → List Resource
all_resources [] = []
all_resources (g ∷ gs) = resources g ++ all_resources gs

-- One resource of every group, the first that fits; where none of a group fits, the list is
-- overloaded at the last of the group, and nothing of this group or behind it is touched.
unfoldable pub serve : List (List Sample) → Checked
unfolding some_fits pick last_or all_resources
serve [] = available []
serve ([] ∷ gs) = serve gs
serve ((s ∷ g) ∷ gs) =
    let rest = serve gs in
    if some_fits (s ∷ g)
    then prepend (pick (s ∷ g)) rest
    else overloaded (last_or s.1 g) (resources (s ∷ g) ++ all_resources gs)

-- The rest of the group that is served is skipped.
abbrev skip_group : List (List Sample) → Checked
skip_group [] = available []
skip_group (g ∷ gs) = prepend (resources g) (serve gs)

push-prepend :
    (r : Resource) (rs : List Resource) (c : Checked) → push r (prepend rs c) ≡ prepend (r ∷ rs) c
push-prepend r rs (available ss) = refl
push-prepend r rs (overloaded t ss) = refl

prepend_one : (r : Resource) (c : Checked) → push r c ≡ prepend (r ∷ []) c
prepend_one r (available ss) = refl
prepend_one r (overloaded t ss) = refl

all-groups : (ss : List Sample) → all_resources (groups ss) ≡ resources ss
unfolding all_resources groups
all-groups [] = refl
all-groups (s ∷ ss) = elim (Bool-cases s.1.failover_to_next) [
  | inr e ↦ rw (groups-last s ss e) (ap (◌∷◌ s.1) (all-groups ss))
  | inl e ↦ joined ss e (all-groups ss)
]
  where
    joined :
        (ss : List Sample)
        → s.1.failover_to_next ≡ true
        → all_resources (groups ss) ≡ resources ss
        → all_resources (groups (s ∷ ss)) ≡ resources (s ∷ ss)
    joined [] e h = rw e
    joined (t ∷ ss) e h =
        let (g, gs, q) = groups-cons t ss in
        rw (groups-attach s (t ∷ ss) (t ∷ g) gs e q) (ap (◌∷◌ s.1) (rw q at h))

checked : CheckState → List Sample → Checked
checked st ss = check st (values ss) (resources ss)

-- FAILOVER behaves as NORMAL.
checked_failover : (ss : List Sample) → checked check_failover ss ≡ checked check_normal ss
unfolding checked check
checked_failover [] = refl
checked_failover (s ∷ ss) = refl

-- One round of the loop.
module _ (s : Sample) (ss : List Sample) where
  checked-full :
      fits s ≡ false
      → checked check_normal (s ∷ ss) ≡ (
          if s.1.failover_to_next
          then push s.1 (checked check_failover ss)
          else overloaded s.1 (resources (s ∷ ss)))
  unfolding checked check
  checked-full h = elim (Bool-cases (leb_ℤ s.1.limit s.0)) [
    | inl e ↦ rw e refl
    | inr e ↦ cc (ap not e)
  ]

  checked-room :
      fits s ≡ true
      → checked check_normal (s ∷ ss) ≡ push (activate s.1) (checked (skip_rest s.1) ss)
  unfolding checked check
  checked-room h = elim (Bool-cases (leb_ℤ s.1.limit s.0)) [
    | inr e ↦ rw e refl
    | inl e ↦ cc (ap not e)
  ]

  checked-skip : checked check_skip (s ∷ ss) ≡ push s.1 (checked (skip_rest s.1) ss)
  unfolding checked check
  checked-skip = refl

  serve-room :
      (g : List Sample) (gs : List (List Sample))
      → fits s ≡ true
      → serve ((s ∷ g) ∷ gs) ≡ prepend (activate s.1 ∷ resources g) (serve gs)
  unfolding serve
  serve-room g gs h = rw h refl

  serve-full :
      (t : Sample) (g : List Sample) (gs : List (List Sample))
      → fits s ≡ false
      → serve ((s ∷ t ∷ g) ∷ gs) ≡ push s.1 (serve ((t ∷ g) ∷ gs))
  unfolding serve
  serve-full t g gs h = rw h (elim (Bool-cases (some_fits (t ∷ g))) [
    | inl e ↦ rw e (sym (push-prepend s.1 (pick (t ∷ g)) (serve gs)))
    | inr e ↦ rw e refl
  ])

  serve-full_alone :
      (gs : List (List Sample))
      → fits s ≡ false
      → serve ((s ∷ []) ∷ gs) ≡ overloaded s.1 (s.1 ∷ all_resources gs)
  unfolding serve
  serve-full_alone gs h = rw h refl

abbrev Serves : List Sample → Type 0
Serves ss =
    (checked check_normal ss ≡ serve (groups ss)) × (checked check_skip ss ≡ skip_group (groups ss))

-- The last of its group.
Serves-last :
    (s : Sample) (ss : List Sample) → s.1.failover_to_next ≡ false → Serves ss → Serves (s ∷ ss)
Serves-last s ss e ih =
    let rest : checked (skip_rest s.1) ss ≡ serve (groups ss) = rw e ih.0 in
    rw (groups-last s ss e) (
      elim (Bool-cases (fits s)) [
        | inl room ↦
            checked-room s ss room
            ∙ ap (push (activate s.1)) rest
            ∙ prepend_one (activate s.1) (serve (groups ss))
            ∙ sym (serve-room s ss [] (groups ss) room)
        | inr full ↦
            checked-full s ss full
            ∙ ap
                (λ b.
                  if b
                  then push s.1 (checked check_failover ss)
                  else overloaded s.1 (resources (s ∷ ss)))
                e
            ∙ ap (λ rs. overloaded s.1 (s.1 ∷ rs)) (sym (all-groups ss))
            ∙ sym (serve-full_alone s ss (groups ss) full)
      ],
      checked-skip s ss ∙ ap (push s.1) rest ∙ prepend_one s.1 (serve (groups ss)),
    )

-- One with an alternative behind it.
Serves-more :
    (s t : Sample) (ss : List Sample)
    → s.1.failover_to_next ≡ true
    → Serves (t ∷ ss)
    → Serves (s ∷ t ∷ ss)
Serves-more s t ss e ih =
    let (g, gs, q) = groups-cons t ss in
    let rest : checked (skip_rest s.1) (t ∷ ss) ≡ prepend (resources (t ∷ g)) (serve gs) =
      rw e (ih.1 ∙ ap skip_group q) in
    let again : checked check_failover (t ∷ ss) ≡ serve ((t ∷ g) ∷ gs) =
      checked_failover (t ∷ ss) ∙ ih.0 ∙ ap serve q in
    rw (groups-attach s (t ∷ ss) (t ∷ g) gs e q) (
      elim (Bool-cases (fits s)) [
        | inl room ↦
            checked-room s (t ∷ ss) room
            ∙ ap (push (activate s.1)) rest
            ∙ push-prepend (activate s.1) (resources (t ∷ g)) (serve gs)
            ∙ sym (serve-room s ss (t ∷ g) gs room)
        | inr full ↦
            checked-full s (t ∷ ss) full
            ∙ ap
                (λ b.
                  if b
                  then push s.1 (checked check_failover (t ∷ ss))
                  else overloaded s.1 (resources (s ∷ t ∷ ss)))
                e
            ∙ ap (push s.1) again
            ∙ sym (serve-full s ss t g gs full)
      ],
      checked-skip s (t ∷ ss)
          ∙ ap (push s.1) rest
          ∙ push-prepend s.1 (resources (t ∷ g)) (serve gs),
    )

serves : (ss : List Sample) → IsClosed (resources ss) → Serves ss
unfolding checked check serve groups
serves [] c = (refl, refl)
serves (s ∷ []) c = Serves-last s [] c (serves [] tt)
serves (s ∷ t ∷ ss) c = elim (Bool-cases s.1.failover_to_next) [
  | inl e ↦ Serves-more s t ss e (serves (t ∷ ss) c)
  | inr e ↦ Serves-last s (t ∷ ss) e (serves (t ∷ ss) c)
]

-- On a list whose last resource has no alternative, the loop does what its groups ask for.
pub check-serve :
    (ss : List Sample)
    → IsClosed (resources ss)
    → check check_normal (values ss) (resources ss) ≡ serve (groups ss)
unfolding checked
check-serve ss c = (serves ss c).0
