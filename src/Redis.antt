-- ===== src/Redis.antt =====
-- src/resources/ResourceRedisConnection.cpp: the one writing connection, its queue of operations,
-- and the choice among the resources of a call. A handler runs to its end under the mutex of the
-- queue or in the connection's thread, so a history is a list of calls; what another component
-- answers (a request posted or not, the texts of replies) is an argument of the call. The reading
-- connection, JSON-RPC and the configuration are not modelled.
mod Tests
pub mod Select
pub mod Choice
pub mod Get
pub mod Quiet
pub mod Balance
use sems_yeti.Prelude.{Bool, true, false, not, ◌&&◌, ◌||◌, List, [], ◌∷◌, ◌++◌, if◌then◌else◌}
use sems_yeti.Resource.{Resource, ResourceOperation, res_put, res_get}
use sems_yeti.Sequences.{Reply, Command}
use sems_yeti.Sequences.Operations
use sems_yeti.Sequences.Operations.{Operations, operations}
use sems_yeti.Sequences.Invalidate
use sems_yeti.Sequences.Invalidate.{InvalidateResources, clear_initial, invalidate_resources}

pub record Redis : Type 0 where
  pub connected : Bool
  pub write_async_is_busy : Bool
  pub queue : List ResourceOperation
  pub inv_seq : InvalidateResources
  pub resources_inited : Bool

abbrev pub fresh : Redis
fresh = record {
  connected = false;
  write_async_is_busy = false;
  queue = [];
  inv_seq = invalidate_resources;
  resources_inited = false;
}

-- What a handler does outside of its own state.
pub data Effect : Type 0 where
  -- a request posted to the writing connection
  post : Command → Effect
  -- a sequence handed to the Redis thread, which brings its replies
  release : Operations → Effect
  -- `resources_initialized_cb()`
  initialized : Effect
  -- `operation_result_cb(success)`
  operation_result : Bool → Effect
  -- `redisAsyncDisconnect`
  disconnect : Effect

abbrev pub posts : List Command → List Effect
posts [] = []
posts (c ∷ cs) = post c ∷ posts cs

abbrev pub is_empty {ℓ} : {A : Type ℓ} → List A → Bool
is_empty [] = true
is_empty (x ∷ xs) = false

unfoldable pub is_ready : Redis → Bool
is_ready r = r.connected && r.resources_inited

-- `op_seq->perform()` on a new sequence, and what follows from its answer.
unfoldable pub run_operations : Bool → Redis → List ResourceOperation → Redis × List Effect
run_operations could_post r ops =
    let (o, cmds, started) = Operations.perform could_post (operations ops) in
    if started
    then (record r { write_async_is_busy = true }, posts cmds ++ release o ∷ [])
    else (r, posts cmds)

abbrev pub clear_queue : Redis × List Effect → Redis × List Effect
clear_queue (r, es) = (record r { queue = [] }, es)

unfoldable pub process_operations_queue : Bool → Redis → Redis × List Effect
unfolding is_ready run_operations
process_operations_queue could_post r =
    if not (is_ready r) || r.write_async_is_busy
    then (r, [])
    else (if is_empty r.queue then (r, []) else clear_queue (run_operations could_post r r.queue))

unfoldable pub process_operations_list : Bool → Redis → List ResourceOperation → Redis × List Effect
unfolding is_ready run_operations
process_operations_list could_post r rol =
    if is_ready r && not r.write_async_is_busy
    then run_operations could_post r rol
    else (record r { queue = r.queue ++ rol }, [])

-- `inv_seq.perform()`
unfoldable pub start_invalidation : Bool → Redis → Redis × List Effect
start_invalidation could_post r =
    let (s, cmds, done) = Invalidate.perform could_post r.inv_seq in
    (record r { inv_seq = s }, posts cmds)

abbrev pub cleanup : Redis → Redis
cleanup r = record r { inv_seq = Invalidate.cleanup r.inv_seq }

-- The writing connection is up: `connected` is set by the connection before the handler.
unfoldable pub on_connect : Bool → Redis → Redis × List Effect
unfolding start_invalidation process_operations_queue
on_connect could_post r =
    let c = record r { connected = true } in
    if r.resources_inited
    then process_operations_queue could_post c
    else start_invalidation could_post
        (if Invalidate.is_started r.inv_seq.state then cleanup c else c)

unfoldable pub on_disconnect : Redis → Redis
on_disconnect r =
    let d = record r { connected = false } in
    if r.write_async_is_busy
    then record d { resources_inited = false; write_async_is_busy = false }
    else d

abbrev pub after {ℓ} : {A : Type ℓ} → A × List Effect → (A → A × List Effect) → A × List Effect
after (r, es) f = let (r', fs) = f r in (r', es ++ fs)

-- The invalidation is over.
unfoldable pub initial_finished : Bool → Redis → Redis × List Effect
unfolding process_operations_queue
initial_finished could_post r =
    let i = record r { resources_inited = true } in
    if r.inv_seq.is_initial
    then after (record i { inv_seq = clear_initial r.inv_seq }, initialized ∷ [])
        (process_operations_queue could_post)
    else process_operations_queue could_post i

-- `process_reply_event`, the branch of the initial sequence.
unfoldable pub initial_reply : Bool → Redis → Reply → Redis × List Effect
unfolding initial_finished
initial_reply could_post r reply =
    let (s, cmds) = Invalidate.process_reply r.inv_seq reply in
    after (record r { inv_seq = s }, posts cmds)
      λ r'. if Invalidate.is_finish s.state then initial_finished could_post r' else (r', [])

-- A transaction is over.
unfoldable pub operation_finished : Bool → Redis → Bool → Redis × List Effect
unfolding start_invalidation process_operations_queue
operation_finished could_post r failed =
    let idle = record r { write_async_is_busy = false } in
    after (idle, operation_result (not failed) ∷ [])
      λ i.
        if failed
        then (cleanup (record i { resources_inited = false }), disconnect ∷ [])
        else (if not i.resources_inited
            then start_invalidation could_post (cleanup i)
            else process_operations_queue could_post i)

-- `process_reply_event`, the branch of a transaction `o`: a finished one is destroyed.
unfoldable pub operation_reply : Bool → Redis → Operations → Reply → Redis × List Effect
unfolding operation_finished
operation_reply could_post r o reply =
    let (o', cmds) = Operations.process_reply o reply in
    if Operations.is_finish o'.state
    then after (r, posts cmds) (λ r'. operation_finished could_post r' o'.iserror)
    else (r, posts cmds ++ release o' ∷ [])

-- `invalidate_resources`, up to the wait for the result.
unfoldable pub invalidate : Bool → Redis → Redis × List Effect
unfolding start_invalidation
invalidate could_post r =
    let (r', es) =
      if r.connected && (r.resources_inited && not r.write_async_is_busy)
      then start_invalidation could_post (cleanup r)
      else (r, []) in
    (record r' { resources_inited = false }, es)

-- The operations that `put` collects.
unfoldable pub puts : List Resource → List ResourceOperation
puts [] = []
puts (res ∷ rl) =
    let rest = puts rl in if res.taken then record { op = res_put; res = res } ∷ rest else rest

unfoldable pub put : Bool → Redis → List Resource → Redis × List Effect
unfolding puts process_operations_list
put could_post r rl =
    if is_empty (puts rl) then (r, []) else process_operations_list could_post r (puts rl)

-- `get(ResourceList&)`: the list with its active resources taken, and the operations.
abbrev pub wants : Resource → Bool
wants res = res.active && not res.taken

abbrev pub take : Resource → Resource
take res = record res { taken = true }

unfoldable pub taken_list : List Resource → List Resource
taken_list [] = []
taken_list (res ∷ rl) = (if wants res then take res else res) ∷ taken_list rl

unfoldable pub gets : List Resource → List ResourceOperation
gets [] = []
gets (res ∷ rl) =
    let rest = gets rl in if wants res then record { op = res_get; res = take res } ∷ rest else rest

unfoldable pub take_active : Bool → Redis → List Resource → List Resource × (Redis × List Effect)
unfolding taken_list gets process_operations_list
take_active could_post r rl = (
  taken_list rl,
  if is_empty (gets rl) then (r, []) else process_operations_list could_post r (gets rl),
)
