-- ===== src/Sequences/GetAllRun.antt =====
-- A query from its first request to its answer.
use sems_yeti.Prelude.{
  ℕ, suc, ◌≡◌, refl, sym, ap, ◌∙◌, inl, inr, Bool, true, false, not, ◌&&◌, ◌||◌, List, [], ◌∷◌,
  ◌++◌, Option, arith, length, Bool-cases,
}
use sems_yeti.Prelude.Int.{ℤ, pos, eqb_ℤ}
use sems_yeti.Prelude.Classes.{Text}
use sems_yeti.Sequences.{Arg, Args, cons, array, Reply, success_reply, Converted, is_zero, dec}
use sems_yeti.Sequences.GetAll.{
  get_data, finish, Output, GetAll, get_all, any_value, perform, listed, got_data, close,
  process_in, process_reply,
}
use sems_yeti.Sequences.GetAllFair.{
  answers, answers-append, is_finish, one_if, due, Fair, process_in-Fair, got_data-Going,
}

-- One resource is asked for.
abbrev pub single : ℤ → ℤ → Bool
single type id = not (eqb_ℤ type any_value) && not (eqb_ℤ id any_value)

due_none : (type id : ℤ) → due (get_all type id) ≡ 0
unfolding get_all
due_none type id = elim (Bool-cases (single type id)) [ inl e ↦ rw e refl | inr e ↦ rw e refl ]

perform-Fair :
    (posts : Bool) (type id : ℤ)
    → let g = get_all type id in Fair g ((perform posts g).0, (perform posts g).1)
unfolding perform get_all
perform-Fair true type id = elim (Bool-cases (single type id)) [
  | inl e ↦ rw e (omega arith)
  | inr e ↦ rw e (omega arith)
]
perform-Fair false type id = elim (Bool-cases (single type id)) [
  | inl e ↦ rw e (omega arith)
  | inr e ↦ rw e (omega arith)
]

answered_at_end : (g : GetAll) → g.state ≡ finish → due g ≡ 1
answered_at_end g e = elim (Bool-cases g.iserror) [
  | inl failed ↦ ap (λ b. one_if (b || is_finish g.state)) failed
  | inr fine ↦ ap (λ b. one_if (b || is_finish g.state)) fine ∙ ap (λ s. one_if (is_finish s)) e
]

module _ (str2long : Text → Option ℤ) (past_end : Converted) where
  -- The replies in their order, and all that was posted and answered.
  unfoldable pub run : GetAll → List Reply → GetAll × List Output
  run g [] = (g, [])
  run g (r ∷ rs) =
      let x = process_reply str2long past_end g r in let y = run x.0 rs in (y.0, x.1 ++ y.1)

  run-Fair : (g : GetAll) (rs : List Reply) → Fair g (run g rs)
  unfolding run process_reply
  run-Fair g [] = omega arith
  run-Fair g (r ∷ rs) =
      let x = process_reply str2long past_end g r in
      let one = process_in-Fair str2long past_end g.state g r refl in
      omega (arith, one, run-Fair x.0 rs, answers-append x.1 (run x.0 rs).1)

  -- A reply to the last command, and to one before.
  process_last :
      (g : GetAll) (r : Reply)
      → g.state ≡ get_data
      → g.commands_count ≡ pos 1
      → (process_reply str2long past_end g r).0.state ≡ finish
  unfolding process_reply process_in close
  process_last g r s c =
      let counted = record g { commands_count = dec g.commands_count } in
      let w = got_data-Going str2long past_end counted r.result r.reply_data (ap is_finish s) in
      let last : is_zero (got_data str2long past_end counted r).0.commands_count ≡ true =
        ap is_zero (w.3 ∙ ap dec c) in
      ap (λ s. (process_in str2long past_end s g r).0.state) s ∙ rw last refl

  process_more :
      (g : GetAll) (r : Reply) (n : ℕ)
      → g.state ≡ get_data
      → g.commands_count ≡ pos (suc (suc n))
      → let g' = (process_reply str2long past_end g r).0 in
        (g'.state ≡ get_data) × (g'.commands_count ≡ pos (suc n))
  unfolding process_reply process_in close
  process_more g r n s c =
      let counted = record g { commands_count = dec g.commands_count } in
      let w = got_data-Going str2long past_end counted r.result r.reply_data (ap is_finish s) in
      let left = w.3 ∙ ap dec c in
      let more : is_zero (got_data str2long past_end counted r).0.commands_count ≡ false =
        ap is_zero left in
      (
        ap (λ s. (process_in str2long past_end s g r).0.state) s ∙ rw more (w.2 ∙ s),
        ap (λ s. (process_in str2long past_end s g r).0.commands_count) s ∙ rw more left,
      )

  -- One reply for each command that is still out ends the query.
  run_ends :
      (g : GetAll) (r : Reply) (rs : List Reply)
      → g.state ≡ get_data
      → g.commands_count ≡ pos (suc (length rs))
      → (run g (r ∷ rs)).0.state ≡ finish
  unfolding run
  run_ends g r [] s c = process_last g r s c
  run_ends g r (q ∷ rs) s c =
      let w = process_more g r (length rs) s c in
      run_ends (process_reply str2long past_end g r).0 q rs w.0 w.1

  -- Whatever is asked for, whether or not the request can be posted and whatever replies come: the RPC
  -- is answered at most once, and by then exactly if the query has met an error or is finished.
  pub answered_once :
      (posts : Bool) (type id : ℤ) (rs : List Reply)
      → let start = perform posts (get_all type id) in
        let end = run start.0 rs in
        answers (start.1 ++ end.1) ≡ one_if (end.0.iserror || is_finish end.0.state)
  unfolding get_all
  answered_once posts type id rs =
      let start = perform posts (get_all type id) in
      omega (
        arith,
        answers-append start.1 (run start.0 rs).1,
        perform-Fair posts type id,
        run-Fair start.0 rs,
        due_none type id,
      )

  -- The query after the list of keys.
  listed_start :
      (type id : ℤ) (x : Arg) (xs : Args)
      → single type id ≡ false
      → let listing : Reply = record { result = success_reply; reply_data = array (cons x xs) } in
        let g = (process_reply str2long past_end (perform true (get_all type id)).0 listing).0 in
        (g.state ≡ get_data) × (g.commands_count ≡ pos (suc (length (listed xs))))
  unfolding process_reply process_in perform get_all listed
  listed_start type id x xs many = rw many (refl, refl)

  -- A query for a pattern that could be posted, answered by a list of keys and then by one reply for each
  -- of them, whatever these are, is finished and has answered the RPC exactly once.
  pub query_ends :
      (type id : ℤ) (x : Arg) (xs : Args) (r : Reply) (rs : List Reply)
      → single type id ≡ false
      → length rs ≡ length (listed xs)
      → let start = perform true (get_all type id) in
        let listing : Reply = record { result = success_reply; reply_data = array (cons x xs) } in
        let end = run start.0 (listing ∷ r ∷ rs) in
        (end.0.state ≡ finish) × (answers (start.1 ++ end.1) ≡ 1)
  unfolding run
  query_ends type id x xs r rs many size =
      let listing : Reply = record { result = success_reply; reply_data = array (cons x xs) } in
      let start = (perform true (get_all type id)).0 in
      let w = listed_start type id x xs many in
      let ends : (run start (listing ∷ r ∷ rs)).0.state ≡ finish =
        run_ends (process_reply str2long past_end start listing).0 r rs w.0
          (w.1 ∙ ap (λ n. pos (suc n)) (sym size)) in
      (
        ends,
        answered_once true type id (listing ∷ r ∷ rs)
            ∙ answered_at_end (run start (listing ∷ r ∷ rs)).0 ends,
      )
