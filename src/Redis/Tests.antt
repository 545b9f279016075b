-- ===== src/Redis/Tests.antt =====
-- A choice among two groups, and its account.
use sems_yeti.Prelude.{◌≡◌, refl, ℕ, true, List, [], ◌∷◌}
use sems_yeti.Prelude.Int.{pos, ◌+ℤ◌}
use sems_yeti.Resource.{Resource, blank}
use sems_yeti.Resource.Groups.{Sample, values, resources, groups}
use sems_yeti.Redis.Select.{check, check_normal, available}
use sems_yeti.Redis.Choice.{serve, check-serve}
use sems_yeti.Redis.Balance.{net, get_commands, put_commands, put-get_balance}

abbrev resource : ℕ → ℕ → Resource
resource i l = record blank { type = pos 1; id = pos i; takes = pos 2; limit = pos l }

-- The first of the first group is full.
abbrev samples : List Sample
samples =
    (pos 5, record (resource 1 5) { failover_to_next = true })
    ∷ (pos 0, resource 2 3)
    ∷ (pos 1, resource 3 2)
    ∷ []

check-serve_example :
    check check_normal (values samples) (resources samples) ≡ serve (groups samples)
check-serve_example = check-serve samples refl

chosen :
    serve (groups samples)
    ≡ available (
        record (resource 1 5) { failover_to_next = true }
        ∷ record (resource 2 3) { active = true }
        ∷ record (resource 3 2) { active = true }
        ∷ [])
unfolding serve groups
chosen = refl

abbrev chosen_list : List Resource
chosen_list = record (resource 2 3) { active = true } ∷ resource 1 5 ∷ []

put-get_balance_example :
    net (pos 1) (pos 2) (get_commands chosen_list) +ℤ net (pos 1) (pos 2) (put_commands chosen_list)
    ≡ pos 0
put-get_balance_example = put-get_balance (pos 1) (pos 2) chosen_list (refl, refl, (refl, refl, tt))
