-- ===== src/Cdr/Tests.antt =====
-- A call that is answered and then ends, and one that is refused.
use sems_yeti.Prelude.{ℕ, ◌≡◌, refl, List, [], ◌∷◌, arith}
use sems_yeti.Prelude.Classes.{Text, codes}
use sems_yeti.Cdr.{
  Cdr, first_cdr, set_start_time, by_dst, by_org, by_ts, connect, bleg_connect, end, bleg_invite,
}
use sems_yeti.Cdr.Updates.{
  Update, internal, bleg, aleg, action, run, run_reasons, internal_of, bleg_of, told_of,
}
use sems_yeti.Cdr.Times.{InOrder, times_InOrder}

abbrev begun : Cdr ℕ Text
begun = set_start_time 100 (first_cdr (codes "a") 7)

abbrev answered : List Update
answered =
    action bleg_invite 101
    ∷ action connect 105
    ∷ action bleg_connect 105
    ∷ internal by_org (codes "Bye") 200 190
    ∷ action end 191
    ∷ []

times_InOrder_example : InOrder 100 (run answered begun)
times_InOrder_example = times_InOrder answered begun (omega arith) refl refl

abbrev refused : List Update
refused =
    bleg (codes "Busy Here") 486
    ∷ internal by_dst (codes "Busy") 486 120
    ∷ aleg (codes "Busy") 486
    ∷ bleg (codes "Request terminated") 487
    ∷ internal by_ts (codes "Teardown") 200 130
    ∷ []

run_reasons_example :
    (internal_of (run refused begun) ≡ (by_dst, codes "Busy", 486))
    × (bleg_of (run refused begun) ≡ (codes "Busy Here", 486))
    × (told_of (run refused begun) ≡ (codes "Busy", 486))
run_reasons_example = run_reasons refused begun refl refl refl refl
