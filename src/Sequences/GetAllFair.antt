-- ===== src/Sequences/GetAllFair.antt =====
-- Every step of a query answers the RPC exactly when an answer becomes due.
use sems_yeti.Prelude.{
  ℕ, suc, ◌+◌, ◌≡◌, refl, ap, ◌∙◌, inl, inr, Bool, true, false, ◌||◌, List, [], ◌∷◌, ◌++◌, Option,
  arith, Bool-cases, if◌then◌else◌,
}
use sems_yeti.Prelude.Int.{ℤ}
use sems_yeti.Prelude.Classes.{Text}
use sems_yeti.Sequences.{
  Arg, Args, nil, cons, undef, array, num, cstr, error_struct, other, Reply, ReplyResult,
  is_success, RedisKey, Converted, is_zero, dec,
}
use sems_yeti.Sequences.GetAll.{
  State, initial, get_keys, get_single_key, get_data, finish, Output, ask, answer, refuse, GetAll,
  key_at, on_error, ended, got_keys, asks, listed, got_hash, got_data, close, process_in,
  read_pairs,
}

-- How often the RPC is answered, with a result or an error.
abbrev pub answers : List Output → ℕ
answers [] = 0
answers (ask c ∷ out) = answers out
answers (answer r ∷ out) = suc (answers out)
answers (refuse code ∷ out) = suc (answers out)

pub answers-append : (a b : List Output) → answers (a ++ b) ≡ answers a + answers b
answers-append [] b = omega arith
answers-append (ask c ∷ a) b = answers-append a b
answers-append (answer r ∷ a) b = omega (arith, answers-append a b)
answers-append (refuse code ∷ a) b = omega (arith, answers-append a b)

answers-asks : (ks : List RedisKey) → answers (asks ks) ≡ 0
answers-asks [] = refl
answers-asks (k ∷ ks) = answers-asks ks

abbrev pub is_finish : State → Bool
is_finish finish = true
is_finish _ = false

abbrev pub one_if : Bool → ℕ
one_if b = if b then 1 else 0

-- The number of answers that are due by then.
abbrev pub due : GetAll → ℕ
due g = one_if (g.iserror || is_finish g.state)

-- The answers of a step are those that become due in it.
abbrev pub Fair : GetAll → GetAll × List Output → Type 0
Fair g (g', out) = answers out + due g ≡ due g'

on_error-Fair : (code : ℕ) (g : GetAll) → is_finish g.state ≡ false → Fair g (on_error code g)
on_error-Fair code g going = ground arith

ended-Fair : (code : ℕ) (g : GetAll) → is_finish g.state ≡ false → Fair g (ended code g)
ended-Fair code g going = ground arith

-- Besides, the query goes on where it was.
abbrev pub Going : GetAll → GetAll × List Output → Type 0
Going g x =
    Fair g x
    × (is_finish x.0.state ≡ false)
    × (x.0.state ≡ g.state)
    × (x.0.commands_count ≡ g.commands_count)

on_error-Going : (code : ℕ) (g : GetAll) → is_finish g.state ≡ false → Going g (on_error code g)
on_error-Going code g going = ground (arith, on_error-Fair code g going)

got_keys-Fair : (g : GetAll) (x : Arg) → is_finish g.state ≡ false → Fair g (got_keys g x)
got_keys-Fair g undef going = ended-Fair 404 g going
got_keys-Fair g (array nil) going = ended-Fair 404 g going
got_keys-Fair g (array (cons x xs)) going =
    rw (answers-asks (g.keys ++ listed (cons x xs))) (ground arith)
got_keys-Fair g (num n) going = ended-Fair 500 g going
got_keys-Fair g (cstr t) going = ended-Fair 500 g going
got_keys-Fair g (error_struct e) going = ended-Fair 500 g going
got_keys-Fair g other going = ended-Fair 500 g going

module _ (str2long : Text → Option ℤ) (past_end : Converted) where
  got_hash-Going :
      (g : GetAll) (xs : Args)
      → is_finish g.state ≡ false
      → Going g (got_hash str2long past_end g xs)
  got_hash-Going g xs going =
      let hash = read_pairs str2long past_end xs in
      let pushed = record g { result = g.result ++ (key_at str2long past_end g, hash.0) ∷ [] } in
      elim (Bool-cases hash.1) [
        | inl e ↦ rw e (on_error-Going 500 pushed going)
        | inr e ↦ rw e (omega arith, going, refl, refl)
      ]

  pub got_data-Going :
      (g : GetAll) (result : ReplyResult) (x : Arg)
      → is_finish g.state ≡ false
      → Going g (got_data str2long past_end g (record { result = result; reply_data = x }))
  unfolding got_data
  got_data-Going g result x going = elim (Bool-cases (is_success result)) [
    | inr e ↦ rw e (on_error-Going 500 g going)
    | inl e ↦ rw e (hash x)
  ]
    where
      hash :
          (x : Arg)
          → Going g (elim x [
            | undef ↦ on_error 500 g
            | array xs ↦ got_hash str2long past_end g xs
            | num n ↦ (g, [])
            | cstr t ↦ (g, [])
            | error_struct e ↦ (g, [])
            | other ↦ (g, [])
          ])
      hash undef = on_error-Going 500 g going
      hash (array xs) = got_hash-Going g xs going
      hash (num n) = (omega arith, going, refl, refl)
      hash (cstr t) = (omega arith, going, refl, refl)
      hash (error_struct e) = (omega arith, going, refl, refl)
      hash other = (omega arith, going, refl, refl)

  close-Fair :
      (g h : GetAll) (out : List Output)
      → Fair g (h, out)
      → is_finish h.state ≡ false
      → Fair g (close str2long past_end (h, out))
  unfolding close
  close-Fair g h out step going = elim (Bool-cases (is_zero h.commands_count)) [
    | inr e ↦ rw e step
    | inl e ↦ elim (Bool-cases h.iserror) [
      | inl failed ↦ rw (e, failed) (step ∙ ap (λ b. one_if (b || is_finish h.state)) failed)
      | inr fine ↦
          let none_due : due h ≡ 0 =
            ap (λ b. one_if (b || is_finish h.state)) fine ∙ ap one_if going in
          rw (e, fine, answers-append out (answer h.result ∷ [])) (omega (arith, step, none_due))
    ]
  ]

  pub process_in-Fair :
      (s : State) (g : GetAll) (r : Reply)
      → g.state ≡ s
      → Fair g (process_in str2long past_end s g r)
  unfolding process_in
  process_in-Fair initial g r e = on_error-Fair 500 g (ap is_finish e)
  process_in-Fair get_keys g r e = elim (Bool-cases (is_success r.result)) [
    | inl ok ↦ rw ok (got_keys-Fair g r.reply_data (ap is_finish e))
    | inr failed ↦ rw failed (ended-Fair 500 g (ap is_finish e))
  ]
  process_in-Fair get_data g r e =
      let counted = record g { commands_count = dec g.commands_count } in
      let x = got_data str2long past_end counted r in
      let w = got_data-Going counted r.result r.reply_data (ap is_finish e) in
      close-Fair g x.0 x.1 w.0 w.1
  process_in-Fair get_single_key g r e = omega arith
  process_in-Fair finish g r e = omega arith
