-- ===== src/Sequences/Invalidate.antt =====
-- InvalidateResources: sets this node's use of every resource to zero, at the start and on demand.
use sems_yeti.Prelude.{
  Bool, true, false, not, ◌&&◌, ◌||◌, ◌+◌, ℕ, suc, List, [], ◌∷◌, ◌++◌, if◌then◌else◌,
}
use sems_yeti.Prelude.Int.{ℤ, pos}
use sems_yeti.Sequences.{
  Arg, Args, nil, cons, undef, array, Reply, is_success, is_status, Command, keys_all, multi, exec,
  hset_zero, of_reply, dec, is_zero,
}

pub data State : Type 0 where
  initial get_keys clean_res finish : State

-- `killed` records that `on_error` has sent SIGTERM to the process itself.
pub record InvalidateResources : Type 0 where
  pub state : State
  pub commands_count : ℤ
  pub is_initial : Bool
  pub killed : Bool

abbrev pub invalidate_resources : InvalidateResources
invalidate_resources = record {
  state = initial;
  commands_count = pos 0;
  is_initial = true;
  killed = false;
}

unfoldable pub cleanup : InvalidateResources → InvalidateResources
cleanup s = record s { commands_count = pos 0; state = initial; is_initial = false }

abbrev pub clear_initial : InvalidateResources → InvalidateResources
clear_initial s = record s { is_initial = false }

abbrev pub on_error : InvalidateResources → InvalidateResources
on_error s = record s { killed = s.is_initial || s.killed }

perform_in : State → Bool → InvalidateResources → InvalidateResources × List Command × Bool
perform_in initial posts s =
    let s' = record s { state = get_keys } in
    if posts then (s', keys_all ∷ [], true) else (on_error s', [], false)
perform_in _ posts s = (on_error s, [], false)

-- `posts` says whether the request for KEYS could be posted.
unfoldable pub perform : Bool → InvalidateResources → InvalidateResources × List Command × Bool
unfolding perform_in
perform posts s = perform_in s.state posts s

abbrev pub size : Args → ℕ
size nil = 0
size (cons x xs) = suc (size xs)

unfoldable pub resets : Args → List Command
resets nil = []
resets (cons x xs) = hset_zero (of_reply x) ∷ resets xs

-- A successful reply to KEYS.
got_keys : InvalidateResources → Arg → InvalidateResources × List Command
got_keys s undef = (record s { state = finish }, [])
got_keys s (array xs) = (
  record s { state = clean_res; commands_count = pos (size xs + 2) },
  multi ∷ resets xs ++ exec ∷ [],
)
got_keys s _ = (on_error s, [])

-- A reply in CLEAN_RES, with `commands_count` already counted down.
abbrev cleaned : InvalidateResources → Reply → InvalidateResources
cleaned s reply =
    let last = is_zero s.commands_count in
    if (not last && not (is_status reply.result)) || (last && not (is_success reply.result))
    then on_error s
    else (if last && is_success reply.result then record s { state = finish } else s)

process_in : State → InvalidateResources → Reply → InvalidateResources × List Command
process_in initial s reply = (on_error s, [])
process_in get_keys s reply =
    if is_success reply.result then got_keys s reply.reply_data else (on_error s, [])
process_in clean_res s reply =
    (cleaned (record s { commands_count = dec s.commands_count }) reply, [])
process_in finish s reply = (s, [])

unfoldable pub process_reply : InvalidateResources → Reply → InvalidateResources × List Command
unfolding process_in got_keys resets
process_reply s reply = process_in s.state s reply

abbrev pub is_finish : State → Bool
is_finish finish = true
is_finish _ = false

abbrev pub is_started : State → Bool
is_started initial = false
is_started _ = true
