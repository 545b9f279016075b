-- ===== src/Sequences/Tests.antt =====
-- One transaction and one check, with their replies.
use sems_yeti.Prelude.{
  ◌≡◌, refl, true, false, ◌||◌, ◌==◌, List, [], ◌∷◌, ◌++◌, Option, none, length,
}
use sems_yeti.Prelude.Int.{ℤ, pos}
use sems_yeti.Prelude.Classes.{Text}
use sems_yeti.Resource.{Resource, ResourceOperation, blank, res_get, res_put}
use sems_yeti.Sequences.{
  hvals, get_key, Reply, success_reply, status_reply, undef, num, array, nil, cons, exec, multi,
}
use sems_yeti.Sequences.Operations
use sems_yeti.Sequences.Operations.{filter_out, op_res, finish}
use sems_yeti.Sequences.OperationsRun
use sems_yeti.Sequences.OperationsRun.{start_of, refused, transaction_run}
use sems_yeti.Sequences.Check
use sems_yeti.Sequences.Check.{check_resources, requests}
use sems_yeti.Sequences.CheckRun
use sems_yeti.Sequences.CheckRun.{unread, readings, check_run}

abbrev used : Resource
used = record blank {
  type = pos 1;
  id = pos 7;
  takes = pos 1;
  limit = pos 10;
  active = true;
  taken = true;
}

-- The second is filtered out.
abbrev ops : List ResourceOperation
ops = record { op = res_get; res = used } ∷ record { op = res_put; res = blank } ∷ []

abbrev status : Reply
status = record { result = status_reply; reply_data = undef }

abbrev done : Reply
done = record { result = success_reply; reply_data = undef }

transaction_run_example :
    let queued = (Operations.process_reply (start_of ops) status).1 in
    ((Operations.perform true (Operations.operations ops)).1 ≡ multi ∷ [])
    × (queued ≡ Operations.increments (filter_out ops) ++ exec ∷ [])
    × (length queued ≡ 2)
    × ((OperationsRun.run (start_of ops) (status ∷ status ∷ [])).state ≡ op_res)
    × ((OperationsRun.run (start_of ops) (status ∷ status ∷ done ∷ [])).state ≡ finish)
    × ((OperationsRun.run (start_of ops) (status ∷ status ∷ done ∷ [])).iserror
        ≡ (false || refused (status ∷ [])))
transaction_run_example =
    transaction_run ops status (status ∷ []) done (unfold filter_out in λ e. cc)
      (unfold filter_out in refl)

-- Two nodes use 3 and 4.
abbrev in_use : Reply
in_use = record {
  result = success_reply;
  reply_data = array (cons (num (pos 3)) (cons (num (pos 4)) nil));
}

abbrev no_number : Text → Option ℤ
no_number t = none

check_run_example :
    let c = CheckRun.run no_number (Check.perform (check_resources (used ∷ []))).0 (in_use ∷ []) in
    ((Check.perform (check_resources (used ∷ []))).1 ≡ hvals (get_key used) ∷ [])
    × ((CheckRun.run no_number (Check.perform (check_resources (used ∷ []))).0 []).finished ≡ false)
    × (c.finished ≡ true)
    × (c.iserror ≡ unread no_number (in_use ∷ []))
    × (c.result ≡ readings no_number (in_use ∷ []))
    × ((c.iserror || length c.result == 1) ≡ true)
check_run_example = check_run no_number (used ∷ []) [] in_use [] refl
