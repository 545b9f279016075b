-- ===== src/Redis/Select.antt =====
-- `ResourceRedisConnection::get`: which resources of a list are used, given their present use.
use sems_yeti.Prelude.{Bool, true, false, List, [], ◌∷◌, if◌then◌else◌}
use sems_yeti.Prelude.Int.{ℤ, leb_ℤ}
use sems_yeti.Resource.{Resource}

pub data CheckState : Type 0 where
  check_normal check_failover check_skip : CheckState

-- `overloaded r rl`: the loop broke off at `r`.
pub data Checked : Type 0 where
  available : List Resource → Checked
  overloaded : Resource → List Resource → Checked

abbrev pub push : Resource → Checked → Checked
push r (available rs) = available (r ∷ rs)
push r (overloaded s rs) = overloaded s (r ∷ rs)

abbrev pub is_skip : CheckState → Bool
is_skip check_skip = true
is_skip _ = false

abbrev pub activate : Resource → Resource
activate r = record r { active = true }

abbrev pub skip_rest : Resource → CheckState
skip_rest r = if r.failover_to_next then check_skip else check_normal

-- The loop over the results. With more results than resources the source would read past the end
-- of the list: the loop stops there.
unfoldable pub check : CheckState → List ℤ → List Resource → Checked
check st [] rs = available rs
check st (v ∷ vs) [] = available []
check st (v ∷ vs) (r ∷ rs) =
    let skipped = push r (check (skip_rest r) vs rs) in
    let failover = push r (check check_failover vs rs) in
    let used = push (activate r) (check (skip_rest r) vs rs) in
    if is_skip st
    then skipped
    else (if leb_ℤ r.limit v
        then (if r.failover_to_next then failover else overloaded r (r ∷ rs))
        else used)
