-- ===== src/Sequences/OperationsRun.antt =====
-- A transaction from its first request to its last reply.
use sems_yeti.Prelude.{
  ℕ, suc, ◌≡◌, refl, ap, ◌∙◌, ◌≢◌, inl, inr, Bool, true, false, not, ◌||◌, List, [], ◌∷◌, ◌++◌,
  arith, length, length-append, Bool-cases, List-cases,
}
use sems_yeti.Prelude.Int.{pos}
use sems_yeti.Resource.{Resource, ResourceOperation, Operation, res_put, res_get, res_none}
use sems_yeti.Sequences.{Reply, is_success, is_status, exec, multi}
use sems_yeti.Sequences.Operations.{
  multi_start, op_res, finish, Operations, operations, keeps, filter_out, perform, increments,
  increments_of, process_reply,
}

-- The replies of one connection, in their order.
unfoldable pub run : Operations → List Reply → Operations
run o [] = o
run o (r ∷ rs) = run (process_reply o r).0 rs

-- Some reply to a queued command is not a status.
unfoldable pub refused : List Reply → Bool
refused [] = false
refused (r ∷ rs) = not (is_status r.result) || refused rs

-- With as many replies to come as commands are open, the last one ends the sequence.
run-op_res :
    (mids : List Reply) (last : Reply) (rl : List ResourceOperation) (e : Bool)
    → let o : Operations = record {
      state = op_res;
      commands_count = pos (suc (length mids));
      res_list = rl;
      iserror = e;
    } in
      ((run o (mids ++ last ∷ [])).state ≡ finish)
      × ((run o (mids ++ last ∷ [])).iserror
          ≡ (not (is_success last.result) || (refused mids || e)))
      × ((run o mids).state ≡ op_res)
unfolding run process_reply refused
run-op_res [] last rl e = ground arith
run-op_res (r ∷ mids) last rl e =
    let ih = run-op_res mids last rl (not (is_status r.result) || e) in ground (arith, ih)

-- An operation that the filter leaves posts exactly one command.
kept_one : (op : Operation) (r : Resource) → keeps op r ≡ true → length (increments_of op r) ≡ 1
kept_one res_put r h = ground arith
kept_one res_get r h = ground arith
kept_one res_none r h = cc

kept-increments :
    (rl : List ResourceOperation) → length (increments (filter_out rl)) ≡ length (filter_out rl)
unfolding increments filter_out
kept-increments [] = refl
kept-increments (o ∷ os) = elim (Bool-cases (keeps o.op o.res)) [
  | inr e ↦ rw e (kept-increments os)
  | inl e ↦ rw e (
      omega (
        arith,
        length-append (increments_of o.op o.res) (increments (filter_out os)),
        kept_one o.op o.res e,
        kept-increments os,
      ))
]

abbrev pub start_of : List ResourceOperation → Operations
start_of rl = (perform true (operations rl)).0

start_of-eq :
    (rl : List ResourceOperation)
    → filter_out rl ≢ []
    → (perform true (operations rl) ≡ (
      record {
        state = multi_start;
        commands_count = pos 0;
        res_list = filter_out rl;
        iserror = false;
      },
      multi ∷ [],
      true,
    ))
unfolding perform
start_of-eq rl h = elim (List-cases (filter_out rl)) [
  | inl e ↦ absurd (h e)
  | inr (o, os, e) ↦ rw (e, perform)
]

abbrev in_op_res : List ResourceOperation → ℕ → Operations
in_op_res os n = record {
  state = op_res;
  commands_count = pos (suc n);
  res_list = os;
  iserror = false;
}

-- The reply to MULTI.
first-process_reply :
    (os : List ResourceOperation) (n : ℕ) (first : Reply)
    → n ≡ length os
    → process_reply
        (record { state = multi_start; commands_count = pos 0; res_list = os; iserror = false })
        first
      ≡ (in_op_res os n, increments os ++ exec ∷ [])
unfolding process_reply
first-process_reply os n first e = ground arith

-- A list with something left to do starts a transaction with MULTI; the reply to MULTI, whatever it
-- is, posts one command for each operation left and EXEC; and one reply for each of these ends the
-- transaction, not sooner, with an error exactly when a queued command was not answered by a status
-- or EXEC was not answered by a success.
pub transaction_run :
    (rl : List ResourceOperation) (first : Reply) (mids : List Reply) (last : Reply)
    → filter_out rl ≢ []
    → length mids ≡ length (filter_out rl)
    → let queued = (process_reply (start_of rl) first).1 in
      ((perform true (operations rl)).1 ≡ multi ∷ [])
      × (queued ≡ increments (filter_out rl) ++ exec ∷ [])
      × (length queued ≡ length (mids ++ last ∷ []))
      × ((run (start_of rl) (first ∷ mids)).state ≡ op_res)
      × ((run (start_of rl) (first ∷ mids ++ last ∷ [])).state ≡ finish)
      × ((run (start_of rl) (first ∷ mids ++ last ∷ [])).iserror
          ≡ (not (is_success last.result) || refused mids))
unfolding run process_reply
transaction_run rl first mids last some_left size =
    let ih = run-op_res mids last (filter_out rl) false in
    let left = filter_out rl in
    let begun = start_of-eq rl some_left in
    let p : process_reply (start_of rl) first
        ≡ (in_op_res left (length mids), increments left ++ exec ∷ []) =
      rw (ap (λ t. t.0) begun) (first-process_reply left (length mids) first size) in
    (
      ap (λ t. t.1) begun,
      ap (λ t. t.1) p,
      rw p (
          omega (
            arith,
            kept-increments rl,
            length-append (increments left) (exec ∷ []),
            length-append mids (last ∷ []),
          )),
      ap (λ t. (run t.0 mids).state) p ∙ ih.2,
      ap (λ t. (run t.0 (mids ++ last ∷ [])).state) p ∙ ih.0,
      ap (λ t. (run t.0 (mids ++ last ∷ [])).iserror) p ∙ ih.1 ∙ ground arith,
    )
