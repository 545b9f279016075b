-- ===== src/Sequences/GetAll.antt =====
-- GetAllResources: the sequence behind the RPC that shows the use of one or of many resources.
use sems_yeti.Prelude.{
  ℕ, suc, ◌-◌, Bool, true, false, ◌&&◌, not, List, [], ◌∷◌, ◌++◌, Option, none, some, if◌then◌else◌,
  length, get_elem?, map,
}
use sems_yeti.Prelude.Int.{ℤ, pos, negsuc, pos_part, eqb_ℤ}
use sems_yeti.Prelude.Words.{bits}
use sems_yeti.Prelude.Classes.{Text}
use sems_yeti.Sequences.{
  Arg, Args, nil, cons, undef, array, Reply, is_success, RedisKey, of_resource, of_reply, Converted,
  num, cstr, error_struct, other, value, dec, is_zero, reply_to_int,
}

pub data State : Type 0 where
  initial get_keys get_single_key get_data finish : State

-- `res_key`: one key, or a pattern with ANY_VALUE for the type, the id or both.
pub data Request : Type 0 where
  one : RedisKey → Request
  pattern_of : ℤ → ℤ → Request

pub data Command : Type 0 where
  keys_of : Request → Command
  hgetall : RedisKey → Command

-- What is pushed into the result for one key: numbers of nodes and their use.
abbrev pub Entry : Type 0
Entry = RedisKey × List (ℕ × ℤ)

-- A posted command, or the answer to the RPC: a result or an error code.
pub data Output : Type 0 where
  ask : Command → Output
  answer : List Entry → Output
  refuse : ℕ → Output

-- `result` lists what was pushed into the AmArg, in order.
pub record GetAll : Type 0 where
  pub state : State
  pub commands_count : ℤ
  pub res_key : Request
  pub keys : List RedisKey
  pub result : List Entry
  pub iserror : Bool

abbrev pub any_value : ℤ
any_value = negsuc 0

-- The constructor; `state` is all that depends on the resource asked for.
unfoldable pub get_all : ℤ → ℤ → GetAll
get_all type id =
    let single = not (eqb_ℤ type any_value) && not (eqb_ℤ id any_value) in
    record {
      state = if single then get_single_key else initial;
      commands_count = pos 0;
      res_key = if single then one (of_resource type id) else pattern_of type id;
      keys = [];
      result = [];
      iserror = false;
    }

-- Only the first error is answered.
abbrev pub on_error : ℕ → GetAll → GetAll × List Output
on_error code g = if g.iserror then (g, []) else (record g { iserror = true }, refuse code ∷ [])

abbrev pub key_of : Request → RedisKey
key_of (one k) = k
key_of (pattern_of type id) = of_resource type id

abbrev pub post : Bool → Command → GetAll → GetAll × List Output × Bool
post posts c g =
    if posts then (g, ask c ∷ [], true) else (let (g', out) = on_error 500 g in (g', out, false))

unfoldable pub perform_in : State → Bool → GetAll → GetAll × List Output × Bool
perform_in initial posts g = post posts (keys_of g.res_key) (record g { state = get_keys })
perform_in get_single_key posts g =
    let k = key_of g.res_key in
    post posts (hgetall k) (record g {
      state = get_data;
      keys = g.keys ++ k ∷ [];
      commands_count = pos (suc (pos_part g.commands_count));
    })
perform_in _ posts g = let (g', out) = on_error 500 g in (g', out, false)

unfoldable pub perform : Bool → GetAll → GetAll × List Output × Bool
unfolding perform_in
perform posts g = perform_in g.state posts g

unfoldable pub listed : Args → List RedisKey
listed nil = []
listed (cons x xs) = of_reply x ∷ listed xs

abbrev pub asks : List RedisKey → List Output
asks = map (λ k. ask (hgetall k))

-- A reply to KEYS; each branch but one ends the sequence.
abbrev pub ended : ℕ → GetAll → GetAll × List Output
ended code g = let (g', out) = on_error code g in (record g' { state = finish }, out)

abbrev pub got_keys : GetAll → Arg → GetAll × List Output
got_keys g undef = ended 404 g
got_keys g (array nil) = ended 404 g
got_keys g (array (cons x xs)) =
    let keys = g.keys ++ listed (cons x xs) in
    (
      record g {
        state = get_data;
        commands_count = pos (length (listed (cons x xs)));
        keys = keys;
      },
      asks keys,
    )
got_keys g _ = ended 500 g

-- `str2long` is of the SEMS core; `past_end` is what becomes of a value that a reply of odd length
-- does not have.
module _ (str2long : Text → Option ℤ) (past_end : Converted) where
  abbrev pub pair_of : Converted → Converted → Option (ℕ × ℤ)
  pair_of (value node) (value used) = some (bits node, used)
  pair_of _ _ = none

  abbrev pub add_pair : Option (ℕ × ℤ) → List (ℕ × ℤ) × Bool → List (ℕ × ℤ) × Bool
  add_pair none (ps, failed) = (ps, true)
  add_pair (some p) (ps, failed) = (p ∷ ps, failed)

  -- The loop over a hash: the pairs that were pushed, and whether some pair was not.
  unfoldable pub read_pairs : Args → List (ℕ × ℤ) × Bool
  read_pairs nil = ([], false)
  read_pairs (cons k nil) = add_pair (pair_of (reply_to_int str2long k) past_end) ([], false)
  read_pairs (cons k (cons v rest)) =
      add_pair (pair_of (reply_to_int str2long k) (reply_to_int str2long v)) (read_pairs rest)

  -- The key of the reply, by the number of replies that are still missing.
  abbrev pub key_at : GetAll → RedisKey
  key_at g = elim (get_elem? g.keys (length g.keys - pos_part g.commands_count - 1)) [
    | none ↦ key_of g.res_key
    | some k ↦ k
  ]

  abbrev pub got_hash : GetAll → Args → GetAll × List Output
  got_hash g xs =
      let (ps, failed) = read_pairs xs in
      let pushed = record g { result = g.result ++ (key_at g, ps) ∷ [] } in
      if failed then on_error 500 pushed else (pushed, [])

  -- A reply to HGETALL, with `commands_count` already counted down.
  unfoldable pub got_data : GetAll → Reply → GetAll × List Output
  unfolding read_pairs
  got_data g reply =
      if is_success reply.result
      then elim reply.reply_data [
        | undef ↦ on_error 500 g
        | array xs ↦ got_hash g xs
        | num n ↦ (g, [])
        | cstr t ↦ (g, [])
        | error_struct e ↦ (g, [])
        | other ↦ (g, [])
      ]
      else on_error 500 g

  -- After the last reply.
  unfoldable pub close : GetAll × List Output → GetAll × List Output
  close (g, out) =
      if is_zero g.commands_count
      then (record g { state = finish }, if g.iserror then out else out ++ answer g.result ∷ [])
      else (g, out)

  unfoldable pub process_in : State → GetAll → Reply → GetAll × List Output
  unfolding got_data close
  process_in initial g reply = on_error 500 g
  process_in get_keys g reply =
      if is_success reply.result then got_keys g reply.reply_data else ended 500 g
  process_in get_data g reply =
      close (got_data (record g { commands_count = dec g.commands_count }) reply)
  process_in get_single_key g reply = (g, [])
  process_in finish g reply = (g, [])

  unfoldable pub process_reply : GetAll → Reply → GetAll × List Output
  unfolding process_in
  process_reply g reply = process_in g.state g reply
