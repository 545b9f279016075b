-- ===== src/Sequences/Check.antt =====
-- CheckResources: asks Redis for the use of every resource of a list.
use sems_yeti.Prelude.{Bool, true, false, Option, List, [], ◌∷◌, ◌++◌, if◌then◌else◌, length}
use sems_yeti.Prelude.Int.{ℤ, pos}
use sems_yeti.Prelude.Classes.{Text}
use sems_yeti.Resource.{Resource}
use sems_yeti.Sequences.{
  Reply, is_success, Command, hvals, get_key, dec, is_zero, Converted, value, reply_data_exception,
  reply_type_exception, reply_to_int,
}

pub data State : Type 0 where
  initial get_vals finish : State

pub record CheckResources : Type 0 where
  pub state : State
  pub commands_count : ℤ
  pub resources : List Resource
  pub finished : Bool
  pub iserror : Bool
  pub result : List ℤ

abbrev pub check_resources : List Resource → CheckResources
check_resources rl = record {
  state = initial;
  commands_count = pos 0;
  resources = rl;
  finished = false;
  iserror = false;
  result = [];
}

abbrev pub on_error : CheckResources → CheckResources
on_error c = record c { iserror = true }

unfoldable pub requests : List Resource → List Command
requests [] = []
requests (r ∷ rs) = hvals (get_key r) ∷ requests rs

perform_in : State → CheckResources → CheckResources × List Command × Bool
perform_in initial c = (
  record c { state = get_vals; commands_count = pos (length c.resources) },
  requests c.resources,
  true,
)
perform_in _ c = (on_error c, [], false)

unfoldable pub perform : CheckResources → CheckResources × List Command × Bool
unfolding perform_in requests
perform c = perform_in c.state c

push : CheckResources → Converted → CheckResources
push c (value now) = record c { result = c.result ++ now ∷ [] }
push c reply_data_exception = on_error c
push c reply_type_exception = on_error c

-- The last test of `processRedisReply`, in every state.
close : CheckResources → CheckResources
close c = if is_zero c.commands_count then record c { state = finish; finished = true } else c

module _ (str2long : Text → Option ℤ) where
  read_value : CheckResources → Reply → CheckResources
  unfolding push
  read_value c reply =
      if is_success reply.result
      then push c (reply_to_int str2long reply.reply_data)
      else on_error c

  process_in : State → CheckResources → Reply → CheckResources
  process_in initial c reply = close (on_error c)
  process_in get_vals c reply =
      close (read_value (record c { commands_count = dec c.commands_count }) reply)
  process_in finish c reply = close c

  unfoldable pub process_reply : CheckResources → Reply → CheckResources
  unfolding process_in read_value close
  process_reply c reply = process_in c.state c reply
