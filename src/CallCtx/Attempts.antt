-- ===== src/CallCtx/Attempts.antt =====
-- The numbers of the attempts, and the order in which profiles are tried.
use mathlib.Core.Path.{subst}
use mathlib.Core.List.{append-nil}
use sems_yeti.Prelude.{
  is_nil, ℕ, zero, suc, ◌+◌, ◌≡◌, refl, ap, ◌∙◌, ◌≢◌, inl, inr, Bool, true, false, not, ◌||◌, List,
  [], ◌∷◌, ◌++◌, map, none, arith, length, length-append, Bool-cases,
}
use sems_yeti.Prelude.Words.{bits}
use sems_yeti.Codes.{Translator, Env, translate_db_code}
use sems_yeti.Sequences.{is_zero}
use sems_yeti.Cdr.{Cdr}
use sems_yeti.CallCtx.{
  Profile, CallCtx, Skipped, is_skip, skip_one, skip, advance, settle, skip_cdr, get_next_profile,
  settle_at,
}

-- `n`, `n + 1` and so on.
abbrev pub count_from : ℕ → ℕ → List ℕ
count_from n zero = []
count_from n (suc k) = n ∷ count_from (suc n) k

-- The counter closes the row of numbers.
count_from-snoc : (n k : ℕ) → count_from n k ++ (n + k) ∷ [] ≡ count_from n (suc k)
count_from-snoc n zero = ap (λ m. m ∷ []) (omega arith)
count_from-snoc n (suc k) =
    ap (◌∷◌ n) (ap (λ m. count_from (suc n) k ++ m ∷ []) (omega arith) ∙ count_from-snoc (suc n) k)

is_nil-[] : {A : Type 0} (xs : List A) → is_nil xs ≡ true → xs ≡ []
is_nil-[] [] h = refl
is_nil-[] (x ∷ xs) h = cc

module _ {Details Carried : Type 0} where
  abbrev pub numbers : List (Cdr Details Carried) → List ℕ
  numbers = map (λ c. c.attempt_num)

  -- The CDRs are numbered on from `n`, and the counter goes on behind them.
  abbrev Numbered : ℕ → Skipped Details Carried → Type 0
  Numbered n s =
      (numbers s.written ≡ count_from n (length s.written)) × (s.attempts ≡ n + length s.written)

  skip_one-Numbered :
      (env : Env) (clock : ℕ → ℕ) (cdr : Cdr Details Carried) (n : ℕ) (t : Translator)
      (p : Profile Details)
      → Numbered n (skip_one env clock cdr n t p)
  unfolding skip_one skip_cdr
  skip_one-Numbered env clock cdr n t p =
      elim (Bool-cases
        (translate_db_code env (bits p.skip_code_id) p.aleg_override_id t).1.write_cdr) [
          | inl e ↦ rw e (refl, omega arith)
          | inr e ↦ rw e (refl, omega arith)
        ]

  -- One piece of numbered CDRs behind another.
  join-Numbered :
      (n : ℕ) (one more : List (Cdr Details Carried))
      → numbers one ≡ count_from n (length one)
      → numbers more ≡ count_from (n + length one) (length more)
      → numbers (one ++ more) ≡ count_from n (length (one ++ more))
  join-Numbered n [] more h k = k ∙ ap (λ m. count_from m (length more)) (omega arith)
  join-Numbered n (c ∷ one) more h k =
      let number : c.attempt_num ≡ n = cc in
      let others : numbers one ≡ count_from (suc n) (length one) = cc in
      let behind = subst (λ m. numbers more ≡ count_from m (length more)) (omega arith) k in
      let all = join-Numbered (suc n) one more others behind in
      ap (λ m. m ∷ numbers (one ++ more)) number ∙ ap (◌∷◌ n) all

  skip-Numbered :
      (env : Env) (clock : ℕ → ℕ) (cdr : Cdr Details Carried) (n : ℕ) (t : Translator)
      (p : Profile Details) (rest : List (Profile Details))
      → Numbered n (skip env clock cdr n t p rest)
  unfolding skip
  skip-Numbered env clock cdr n t p [] = skip_one-Numbered env clock cdr n t p
  skip-Numbered env clock cdr n t p (q ∷ rest) =
      let s = skip_one env clock cdr n t p in
      let one = skip_one-Numbered env clock cdr n t p in
      let more = skip-Numbered env clock cdr s.attempts s.translator q rest in
      elim (Bool-cases (is_skip q)) [
        | inr e ↦ rw e one
        | inl e ↦ rw e (
          join-Numbered n s.written (skip env clock cdr s.attempts s.translator q rest).written
              one.0
              (subst
                (λ m.
                  numbers (skip env clock cdr s.attempts s.translator q rest).written
                  ≡ count_from m
                      (length (skip env clock cdr s.attempts s.translator q rest).written))
                one.1 more.0),
          omega (
            arith,
            one.1,
            more.1,
            length-append s.written (skip env clock cdr s.attempts s.translator q rest).written,
          ),
        )
      ]

  advance-Numbered :
      (env : Env) (clock : ℕ → ℕ) (cdr : Cdr Details Carried) (t : Translator) (p : Profile Details)
      (rest : List (Profile Details))
      → Numbered cdr.attempt_num (advance env clock cdr t p rest)
  unfolding advance
  advance-Numbered env clock cdr t p rest = elim (Bool-cases (is_skip p)) [
    | inl e ↦ rw e (skip-Numbered env clock cdr cdr.attempt_num t p rest)
    | inr e ↦ rw e (refl, omega arith)
  ]

  close-Numbered :
      (n : ℕ) (s : Skipped Details Carried)
      → Numbered n s
      → numbers s.written ++ s.attempts ∷ [] ≡ count_from n (suc (length s.written))
  close-Numbered n s h = rw (h.0, h.1) (count_from-snoc n (length s.written))

  settle-Numbered :
      (early_state resource_failover : Bool) (ctx : CallCtx Details Carried)
      (s : Skipped Details Carried) (q : Profile Details) (rest : List (Profile Details))
      → ctx.cdr.writed ≡ false
      → Numbered ctx.cdr.attempt_num s
      → (early_state || is_nil s.written) ≡ true
      → (settle early_state resource_failover ctx s q rest).profile ≢ none
      → let c = settle early_state resource_failover ctx s q rest in
        numbers c.written ++ c.ctx.cdr.attempt_num ∷ []
        ≡ count_from ctx.cdr.attempt_num (suc (length c.written))
  unfolding settle
  settle-Numbered true failover ctx s q rest fresh h free chosen =
      rw (append-nil s.written) (close-Numbered ctx.cdr.attempt_num s h)
  settle-Numbered false failover ctx s q rest fresh h free chosen =
      let n = ctx.cdr.attempt_num in
      let unwritten = is_nil-[] s.written free in
      let counter : s.attempts ≡ n = h.1 ∙ ap (λ w. n + length w) unwritten ∙ omega arith in
      elim (Bool-cases (is_zero q.disconnect_code_id)) [
        | inr refused ↦ absurd (chosen (rw refused refl))
        | inl plain ↦ elim (Bool-cases failover) [
          | inl again ↦ rw (plain, again, append-nil s.written) (close-Numbered n s h)
          | inr moved ↦ rw (plain, moved, unwritten, fresh, counter) refl
        ]
      ]

  settle_at-Numbered :
      (early_state resource_failover : Bool) (ctx : CallCtx Details Carried)
      (s : Skipped Details Carried) (l : List (Profile Details))
      → ctx.cdr.writed ≡ false
      → Numbered ctx.cdr.attempt_num s
      → (early_state || is_nil s.written) ≡ true
      → (settle_at early_state resource_failover ctx s l).profile ≢ none
      → let c = settle_at early_state resource_failover ctx s l in
        numbers c.written ++ c.ctx.cdr.attempt_num ∷ []
        ≡ count_from ctx.cdr.attempt_num (suc (length c.written))
  settle_at-Numbered early failover ctx s [] fresh h free chosen = absurd (chosen refl)
  settle_at-Numbered early failover ctx s (q ∷ rest) fresh h free chosen =
      settle-Numbered early failover ctx s q rest fresh h free chosen

  advance_free :
      (env : Env) (clock : ℕ → ℕ) (early_state : Bool) (cdr : Cdr Details Carried) (t : Translator)
      (p : Profile Details) (rest : List (Profile Details))
      → (early_state || not (is_skip p)) ≡ true
      → (early_state || is_nil (advance env clock cdr t p rest).written) ≡ true
  unfolding advance
  advance_free env clock true cdr t p rest h = refl
  advance_free env clock false cdr t p rest h = elim (Bool-cases (is_skip p)) [
    | inl e ↦ absurd (cc)
    | inr e ↦ rw e refl
  ]

  -- A call of `getNextProfile` that finds a profile: as long as the current profile is not one to skip, or the call
  -- is in its early state, and its CDR is not written, the CDRs written and the one that stays have
  -- the attempt numbers from the present one on, without gap or repetition. This is so in the early state
  -- too, where each CDR written for a skipped profile raises the number of the one that stays.
  pub get_next_profile-numbers :
      (env : Env) (clock : ℕ → ℕ) (early_state resource_failover : Bool)
      (ctx : CallCtx Details Carried) (t : Translator) (p : Profile Details)
      (rest : List (Profile Details))
      → ctx.cdr.writed ≡ false
      → (early_state || not (is_skip p)) ≡ true
      → (get_next_profile env clock early_state resource_failover ctx t p rest).profile ≢ none
      → let c = get_next_profile env clock early_state resource_failover ctx t p rest in
        numbers c.written ++ c.ctx.cdr.attempt_num ∷ []
        ≡ count_from ctx.cdr.attempt_num (suc (length c.written))
  unfolding get_next_profile
  get_next_profile-numbers env clock early failover ctx t p rest fresh usual chosen =
      let h = advance-Numbered env clock ctx.cdr t p rest in
      let free : (early || is_nil (advance env clock ctx.cdr t p rest).written) ≡ true =
        advance_free env clock early ctx.cdr t p rest usual in
      settle_at-Numbered early failover ctx (advance env clock ctx.cdr t p rest)
        (advance env clock ctx.cdr t p rest).next fresh h free chosen
