-- ===== src/Sequences/GetAllTests.antt =====
-- All resources of type 1: two keys, one of them with no use left.
use sems_yeti.Prelude.{ℕ, ◌≡◌, refl, true, ◌||◌, [], ◌∷◌, ◌++◌, Option, none}
use sems_yeti.Prelude.Int.{ℤ, pos}
use sems_yeti.Prelude.Classes.{Text}
use sems_yeti.Sequences.{
  Arg, Reply, success_reply, io_error, undef, num, cstr, array, nil, cons, reply_data_exception,
}
use sems_yeti.Sequences.GetAll.{listed, get_all, any_value, perform, finish}
use sems_yeti.Sequences.GetAllFair.{answers, is_finish, one_if}
use sems_yeti.Sequences.GetAllRun.{run, answered_once, query_ends}

abbrev no_number : Text → Option ℤ
no_number t = none

abbrev key : ℕ → Arg
key n = cstr (n ∷ [])

abbrev used : Reply
used = record {
  result = success_reply;
  reply_data = array (cons (num (pos 8)) (cons (num (pos 2)) nil));
}

abbrev lost : Reply
lost = record { result = io_error; reply_data = undef }

answered_once_example :
    let start = perform true (get_all (pos 1) any_value) in
    let end = run no_number reply_data_exception start.0 (lost ∷ used ∷ []) in
    answers (start.1 ++ end.1) ≡ one_if (end.0.iserror || is_finish end.0.state)
answered_once_example =
    answered_once no_number reply_data_exception true (pos 1) any_value (lost ∷ used ∷ [])

query_ends_example :
    let start = perform true (get_all (pos 1) any_value) in
    let listing : Reply = record {
      result = success_reply;
      reply_data = array (cons (key 65) (cons (key 66) nil));
    } in
    let end = run no_number reply_data_exception start.0 (listing ∷ used ∷ lost ∷ []) in
    (end.0.state ≡ finish) × (answers (start.1 ++ end.1) ≡ 1)
unfolding listed
query_ends_example =
    query_ends no_number reply_data_exception (pos 1) any_value (key 65) (cons (key 66) nil) used
      (lost ∷ []) refl refl
