-- ===== src/Sequences.antt =====
-- src/resources/ResourceSequences.h and .cpp: what the command sequences share. A sequence posts
-- commands to Redis and is driven by the replies; its children model one sequence each.
mod Tests
mod GetAllTests
pub mod Operations
pub mod Check
pub mod Invalidate
pub mod OperationsRun
pub mod CheckRun
pub mod GetAll
pub mod GetAllFair
pub mod GetAllRun
use sems_yeti.Prelude.{Bool, true, false, Option, none, some, zero, suc}
use sems_yeti.Prelude.Int.{ℤ, pos, negsuc, ◌+ℤ◌}
use sems_yeti.Prelude.Classes.{Text}
use sems_yeti.Resource.{Resource}

-- AmArg, as far as replies are read. `num` is what `asLongLong` reads of an int, a long long or a
-- double; `other` is any type that no branch of the code names.
mutual
  pub data Arg : Type 0 where
    undef : Arg
    num : ℤ → Arg
    cstr : Text → Arg
    array : Args → Arg
    error_struct : Text → Arg
    other : Arg

  pub data Args : Type 0 where
    nil : Args
    cons : Arg → Args → Args

-- RedisReplyEvent::result_type
pub data ReplyResult : Type 0 where
  success_reply error_reply status_reply io_error not_connected failed_to_send : ReplyResult

pub record Reply : Type 0 where
  pub result : ReplyResult
  pub reply_data : Arg

abbrev pub is_success : ReplyResult → Bool
is_success success_reply = true
is_success _ = false

abbrev pub is_status : ReplyResult → Bool
is_status status_reply = true
is_status _ = false

-- A Redis key: `get_key` of a resource, "r:<type>:<id>", kept as its two numbers, or the text of a
-- listed key.
pub data RedisKey : Type 0 where
  of_resource : ℤ → ℤ → RedisKey
  of_reply : Arg → RedisKey

abbrev pub get_key : Resource → RedisKey
get_key r = of_resource r.type r.id

-- The last word of HINCRBY: printed by "%d" or by "-%d".
pub data Amount : Type 0 where
  plus minus : ℤ → Amount

-- The posted commands; the field of a hash is always this node's id.
pub data Command : Type 0 where
  keys_all multi exec : Command
  hset_zero : RedisKey → Command
  hincrby : RedisKey → Amount → Command
  hvals : RedisKey → Command

-- `commands_count--`
abbrev pub dec : ℤ → ℤ
dec (pos zero) = negsuc 0
dec (pos (suc n)) = pos n
dec (negsuc n) = negsuc (suc n)

abbrev pub is_zero : ℤ → Bool
is_zero (pos zero) = true
is_zero (pos (suc n)) = false
is_zero (negsuc n) = false

-- What Reply2Int returns or throws.
pub data Converted : Type 0 where
  value : ℤ → Converted
  reply_data_exception reply_type_exception : Converted

-- `str2long` is of the SEMS core. The sum of an array is a number without bound.
module _ (str2long : Text → Option ℤ) where
  unfoldable mutual
    pub reply_to_int : Arg → Converted
    reply_to_int undef = value (pos 0)
    reply_to_int (num n) = value n
    reply_to_int (cstr s) = elim (str2long s) [ none ↦ reply_data_exception | some n ↦ value n ]
    reply_to_int (array xs) = sum_from (pos 0) xs
    reply_to_int (error_struct e) = reply_data_exception
    reply_to_int other = reply_type_exception

    -- The loop over an array, from the sum so far.
    pub sum_from : ℤ → Args → Converted
    sum_from ret nil = value ret
    sum_from ret (cons x xs) = elim (reply_to_int x) [
      | value n ↦ sum_from (ret +ℤ n) xs
      | reply_data_exception ↦ reply_data_exception
      | reply_type_exception ↦ reply_type_exception
    ]
