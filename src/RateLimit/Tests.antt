-- ===== src/RateLimit/Tests.antt =====
-- Ten units in a second, two bursts.
use sems_yeti.Prelude.{◌+◌, ◌*◌, ◌<◌, ◌≤◌, ◌≡◌, refl, List, [], ◌∷◌, arith}
use sems_yeti.Prelude.Int.{pos, pos_part, neg_part, ◌+ℤ◌, ◌-ℤ◌}
use sems_yeti.Prelude.Words.{wrap}
use sems_yeti.RateLimit.{DynRateLimit, limit}
use sems_yeti.RateLimit.Budget.{Call, Usage, run, run_budget}

abbrev full : DynRateLimit
full = record { last_update = 0; counter = pos 10; time_base = 50 }

abbrev calls : List Call
calls =
    record { now = 1; later = 1; size = 6 }
    ∷ record { now = 2; later = 2; size = 7 }
    ∷ record { now = 3; later = 3; size = 1 }
    ∷ record { now = 60; later = 60; size = 5 }
    ∷ []

abbrev after_calls : Usage
after_calls = run 10 10 calls (record { dyn = full; passed = 0; refreshes = 0 })

after_calls_passed : after_calls.passed ≡ 18
unfolding run limit wrap ◌+ℤ◌ ◌-ℤ◌
after_calls_passed = refl

run_budget_example :
    (after_calls.passed < 10 + 10 * after_calls.refreshes + 7)
    × (pos_part after_calls.dyn.counter ≤ 10)
    × (neg_part after_calls.dyn.counter < 7)
run_budget_example =
    run_budget 10 10 7 calls full 10 (omega arith) (omega arith) (omega arith) refl (omega arith)
      (omega arith)
