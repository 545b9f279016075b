-- ===== src/Redis/Quiet.antt =====
-- Which handlers of the connection report the resources as initialised.
use sems_yeti.Prelude.{
  ◌≡◌, refl, ◌∙◌, ◌⊎◌, Bool, true, false, List, [], ◌∷◌, ◌++◌, arith, if◌then◌else◌,
}
use sems_yeti.Resource.{Resource, ResourceOperation}
use sems_yeti.Sequences.{Reply, Command}
use sems_yeti.Sequences.Operations
use sems_yeti.Sequences.Operations.{Operations}
use sems_yeti.Sequences.Invalidate
use sems_yeti.Sequences.Invalidate.{InvalidateResources}
use sems_yeti.Redis.{
  Redis, Effect, post, release, initialized, operation_result, disconnect, posts, run_operations,
  process_operations_queue, process_operations_list, start_invalidation, cleanup, on_connect,
  on_disconnect, initial_finished, initial_reply, operation_finished, operation_reply, invalidate,
  put, puts, take_active, gets,
}

-- Nothing is reported as initialised.
abbrev pub Silent : List Effect → Type 0
Silent [] = Unit {0}
Silent (initialized ∷ es) = ⊥
Silent (post c ∷ es) = Silent es
Silent (release o ∷ es) = Silent es
Silent (operation_result b ∷ es) = Silent es
Silent (disconnect ∷ es) = Silent es

pub Silent-append : (es fs : List Effect) → Silent es → Silent fs → Silent (es ++ fs)
Silent-append [] fs h k = k
Silent-append (initialized ∷ es) fs h k = absurd h
Silent-append (post c ∷ es) fs h k = Silent-append es fs h k
Silent-append (release o ∷ es) fs h k = Silent-append es fs h k
Silent-append (operation_result b ∷ es) fs h k = Silent-append es fs h k
Silent-append (disconnect ∷ es) fs h k = Silent-append es fs h k

Silent-posts : (cs : List Command) → Silent (posts cs)
Silent-posts [] = tt
Silent-posts (c ∷ cs) = Silent-posts cs

-- The first initialisation is behind the connection.
abbrev pub IsSpent : Redis → Type 0
IsSpent r = r.inv_seq.is_initial ≡ false

-- A handler that reports nothing, and keeps the first initialisation behind.
abbrev pub Keeps : Redis → Redis × List Effect → Type 0
Keeps r p = Silent p.1 × (IsSpent r → IsSpent p.0)

run_operations-Keeps :
    (b : Bool) (r : Redis) (ops : List ResourceOperation) → Keeps r (run_operations b r ops)
unfolding run_operations
run_operations-Keeps b r ops = split (Operations.perform b (Operations.operations ops))
  where
    split :
        (p : Operations × List Command × Bool)
        → Keeps r (
            let (o, cmds, started) = p in
            if started
            then (record r { write_async_is_busy = true }, posts cmds ++ release o ∷ [])
            else (r, posts cmds))
    split (o, cmds, true) =
        (Silent-append (posts cmds) (release o ∷ []) (Silent-posts cmds) tt, λ s. s)
    split (o, cmds, false) = (Silent-posts cmds, λ s. s)

pub process_operations_list-Keeps :
    (b : Bool) (r : Redis) (ops : List ResourceOperation)
    → Keeps r (process_operations_list b r ops)
unfolding process_operations_list
process_operations_list-Keeps b r ops = ground (arith, run_operations-Keeps b r ops)

process_operations_queue-Keeps : (b : Bool) (r : Redis) → Keeps r (process_operations_queue b r)
unfolding process_operations_queue
process_operations_queue-Keeps b r = ground (arith, run_operations-Keeps b r r.queue)

perform-is_initial :
    (b : Bool) (s : InvalidateResources) → (Invalidate.perform b s).0.is_initial ≡ s.is_initial
unfolding Invalidate.perform
perform-is_initial b s = ground arith

process_reply-is_initial :
    (s : InvalidateResources) (reply : Reply)
    → (Invalidate.process_reply s reply).0.is_initial ≡ s.is_initial
unfolding Invalidate.process_reply
process_reply-is_initial s reply = ground arith

start_invalidation-Keeps : (b : Bool) (r : Redis) → Keeps r (start_invalidation b r)
unfolding start_invalidation
start_invalidation-Keeps b r =
    (Silent-posts (Invalidate.perform b r.inv_seq).1, λ s. perform-is_initial b r.inv_seq ∙ s)

cleanup-IsSpent : (r : Redis) → IsSpent (cleanup r)
unfolding Invalidate.cleanup
cleanup-IsSpent r = refl

pub on_connect-Keeps : (b : Bool) (r : Redis) → Keeps r (on_connect b r)
unfolding on_connect
on_connect-Keeps b r =
    let c : Redis = record r { connected = true } in
    ground (
      arith,
      process_operations_queue-Keeps b c,
      start_invalidation-Keeps b c,
      start_invalidation-Keeps b (cleanup c),
      cleanup-IsSpent c,
    )

pub on_disconnect-IsSpent : (r : Redis) → IsSpent r → IsSpent (on_disconnect r)
unfolding on_disconnect
on_disconnect-IsSpent r s = ground arith

operation_finished-Keeps : (b : Bool) (r : Redis) (e : Bool) → Keeps r (operation_finished b r e)
unfolding operation_finished
operation_finished-Keeps b r e =
    let idle : Redis = record r { write_async_is_busy = false } in
    ground (
      arith,
      process_operations_queue-Keeps b idle,
      start_invalidation-Keeps b (cleanup idle),
      cleanup-IsSpent idle,
      cleanup-IsSpent (record idle { resources_inited = false }),
    )

pub operation_reply-Keeps :
    (b : Bool) (r : Redis) (o : Operations) (reply : Reply) → Keeps r (operation_reply b r o reply)
unfolding operation_reply
operation_reply-Keeps b r o reply =
    let (o', cmds) = Operations.process_reply o reply in
    ground (
      arith,
      operation_finished-Keeps b r o'.iserror,
      Silent-posts cmds,
      Silent-append (posts cmds) (operation_finished b r o'.iserror).1 (Silent-posts cmds),
      Silent-append (posts cmds) (release o' ∷ []) (Silent-posts cmds) tt,
    )

pub invalidate-Keeps : (b : Bool) (r : Redis) → Keeps r (invalidate b r)
unfolding invalidate
invalidate-Keeps b r = ground (arith, start_invalidation-Keeps b (cleanup r), cleanup-IsSpent r)

pub put-Keeps : (b : Bool) (r : Redis) (rl : List Resource) → Keeps r (put b r rl)
unfolding put
put-Keeps b r rl = ground (arith, process_operations_list-Keeps b r (puts rl))

pub take_active-Keeps : (b : Bool) (r : Redis) (rl : List Resource) → Keeps r (take_active b r rl).1
unfolding take_active
take_active-Keeps b r rl = ground (arith, process_operations_list-Keeps b r (gets rl))

-- The one handler that reports: it does so at most where the first initialisation is not yet behind,
-- and leaves it behind then.
abbrev pub Marks : Redis → Redis × List Effect → Type 0
Marks r p = (IsSpent r → Silent p.1 × IsSpent p.0) × (Silent p.1 ⊎ IsSpent p.0)

initial_finished-Marks : (b : Bool) (r : Redis) → Marks r (initial_finished b r)
unfolding initial_finished
initial_finished-Marks b r =
    let i : Redis = record r { resources_inited = true } in
    let cleared : Redis = record i { inv_seq = Invalidate.clear_initial r.inv_seq } in
    ground (arith, process_operations_queue-Keeps b i, process_operations_queue-Keeps b cleared)

pub initial_reply-Marks : (b : Bool) (r : Redis) (reply : Reply) → Marks r (initial_reply b r reply)
unfolding initial_reply
initial_reply-Marks b r reply =
    let (s, cmds) = Invalidate.process_reply r.inv_seq reply in
    let r' : Redis = record r { inv_seq = s } in
    ground (
      arith,
      process_reply-is_initial r.inv_seq reply,
      initial_finished-Marks b r',
      Silent-posts cmds,
      Silent-append (posts cmds) [] (Silent-posts cmds) tt,
      Silent-append (posts cmds) (initial_finished b r').1 (Silent-posts cmds),
    )
