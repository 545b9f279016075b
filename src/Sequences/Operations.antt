-- ===== src/Sequences/Operations.antt =====
-- OperationResources: one transaction that takes and puts back resources.
use sems_yeti.Prelude.{
  Bool, true, false, not, ◌&&◌, ◌||◌, List, [], ◌∷◌, ◌++◌, ◌+◌, if◌then◌else◌, length,
}
use sems_yeti.Prelude.Int.{ℤ, pos}
use sems_yeti.Resource.{Resource, ResourceOperation, Operation, res_put, res_get, res_none}
use sems_yeti.Sequences.{
  Reply, is_success, is_status, Command, multi, exec, hincrby, plus, minus, get_key, dec, is_zero,
}

pub data State : Type 0 where
  initial multi_start op_res finish : State

pub record Operations : Type 0 where
  pub state : State
  pub commands_count : ℤ
  pub res_list : List ResourceOperation
  pub iserror : Bool

-- The constructor.
abbrev pub operations : List ResourceOperation → Operations
operations rl = record { state = initial; commands_count = pos 0; res_list = rl; iserror = false }

abbrev pub on_error : Operations → Operations
on_error o = record o { iserror = true }

-- The filter of `perform`: whether it leaves the operation in the list.
abbrev pub keeps : Operation → Resource → Bool
keeps res_get r = r.active
keeps res_put r = r.taken
keeps res_none r = false

unfoldable pub filter_out : List ResourceOperation → List ResourceOperation
filter_out [] = []
filter_out (o ∷ os) = let rest = filter_out os in if keeps o.op o.res then o ∷ rest else rest

-- `posts` says whether the request for MULTI could be posted.
post_multi : Bool → Operations → Operations × List Command × Bool
post_multi posts o = if posts then (o, multi ∷ [], true) else (on_error o, [], false)

start : Bool → Operations → List ResourceOperation → Operations × List Command × Bool
start posts o [] = (record o { res_list = [] }, [], false)
start posts o (r ∷ rs) = post_multi posts (record o { res_list = r ∷ rs })

perform_in : State → Bool → Operations → Operations × List Command × Bool
perform_in initial posts o = start posts (record o { state = multi_start }) (filter_out o.res_list)
perform_in _ posts o = (on_error o, [], false)

unfoldable pub perform : Bool → Operations → Operations × List Command × Bool
unfolding perform_in start post_multi filter_out
perform posts o = perform_in o.state posts o

-- The requests for one operation.
abbrev pub increments_of : Operation → Resource → List Command
increments_of res_get r = if r.active then hincrby (get_key r) (plus r.takes) ∷ [] else []
increments_of res_put r = if r.taken then hincrby (get_key r) (minus r.takes) ∷ [] else []
increments_of res_none r = []

unfoldable pub increments : List ResourceOperation → List Command
increments [] = []
increments (o ∷ os) = increments_of o.op o.res ++ increments os

-- The test of a reply in OP_RES, after `commands_count` went down.
abbrev pub unexpected : ℤ → Reply → Bool
unexpected count reply =
    (not (is_zero count) && not (is_status reply.result))
    || (is_zero count && not (is_success reply.result))

process_in : State → Operations → Reply → Operations × List Command
process_in initial o reply = (on_error o, [])
process_in multi_start o reply = (
  record o { state = op_res; commands_count = pos (length o.res_list + 1) },
  increments o.res_list ++ exec ∷ [],
)
process_in op_res o reply =
    let count = dec o.commands_count in
    (
      record o {
        state = if is_zero count then finish else op_res;
        commands_count = count;
        iserror = unexpected count reply || o.iserror;
      },
      [],
    )
process_in finish o reply = (o, [])

-- The sequence and its posts; it can be destroyed when its state is `finish`.
unfoldable pub process_reply : Operations → Reply → Operations × List Command
unfolding process_in increments
process_reply o reply = process_in o.state o reply

abbrev pub is_finish : State → Bool
is_finish finish = true
is_finish _ = false
