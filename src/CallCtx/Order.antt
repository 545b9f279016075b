-- ===== src/CallCtx/Order.antt =====
-- Which profile comes next.
use sems_yeti.Prelude.{
  is_nil, ℕ, ◌≡◌, refl, sym, ap, ◌∙◌, inl, inr, ◌⊎◌, Bool, true, false, not, ◌&&◌, List, [], ◌∷◌,
  ◌++◌, none, some, Bool-cases, if◌then◌else◌,
}
use sems_yeti.Sequences.{is_zero}
use sems_yeti.Prelude.Words.{bits}
use sems_yeti.Codes.{Translator, Env, translate_db_code}
use sems_yeti.Cdr.{Cdr}
use sems_yeti.CallCtx.{
  Profile, CallCtx, Skipped, is_skip, skip_one, skip, advance, settle, settle_at, get_next_profile,
}

-- Every profile is one to skip.
abbrev pub all_skip : {Details : Type 0} → List (Profile Details) → Bool
all_skip [] = true
all_skip (p ∷ ps) = is_skip p && all_skip ps

-- The first profile, if any, is not one to skip.
abbrev stops : {Details : Type 0} → List (Profile Details) → Bool
stops [] = true
stops (q ∷ ps) = not (is_skip q)

-- `next` lies in `rest` behind profiles to skip.
abbrev Behind : {Details : Type 0} → List (Profile Details) → List (Profile Details) → Type 0
Behind {Details} rest next =
    (passed : List (Profile Details)) × (rest ≡ passed ++ next) × (all_skip passed ≡ true)

module _ {Details Carried : Type 0} where
  skip_one_ends :
      (env : Env) (clock : ℕ → ℕ) (cdr : Cdr Details Carried) (n : ℕ) (t : Translator)
      (p : Profile Details)
      → (skip_one env clock cdr n t p).next ≡ []
  unfolding skip_one
  skip_one_ends env clock cdr n t p =
      elim (Bool-cases
        (translate_db_code env (bits p.skip_code_id) p.aleg_override_id t).1.write_cdr) [
          | inl e ↦ rw e refl
          | inr e ↦ rw e refl
        ]

  skip-Behind :
      (env : Env) (clock : ℕ → ℕ) (cdr : Cdr Details Carried) (n : ℕ) (t : Translator)
      (p : Profile Details) (rest : List (Profile Details))
      → let next = (skip env clock cdr n t p rest).next in Behind rest next × (stops next ≡ true)
  unfolding skip
  skip-Behind env clock cdr n t p [] =
      let e = skip_one_ends env clock cdr n t p in (([], sym e, refl), ap stops e)
  skip-Behind env clock cdr n t p (q ∷ rest) =
      let s = skip_one env clock cdr n t p in
      let ((passed, e, all), stop) = skip-Behind env clock cdr s.attempts s.translator q rest in
      elim (Bool-cases (is_skip q)) [
        | inl again ↦ rw again ((q ∷ passed, ap (◌∷◌ q) e, rw again all), stop)
        | inr done ↦ rw done (([], refl, refl), rw done refl)
      ]

  advance_next :
      (env : Env) (clock : ℕ → ℕ) (cdr : Cdr Details Carried) (t : Translator) (p : Profile Details)
      (rest : List (Profile Details))
      → let next = (advance env clock cdr t p rest).next in
        (passed : List (Profile Details)) × (rest ≡ passed ++ next)
        × (all_skip passed ≡ true)
        × ((if is_skip p then stops next else is_nil passed) ≡ true)
  unfolding advance
  advance_next env clock cdr t p rest = elim (Bool-cases (is_skip p)) [
    | inl e ↦
        let ((passed, split, all), stop) = skip-Behind env clock cdr cdr.attempt_num t p rest in
        rw e (passed, split, all, stop)
    | inr e ↦ rw e ([], refl, refl, refl)
  ]

  settle_cases :
      (early_state resource_failover : Bool) (ctx : CallCtx Details Carried)
      (s : Skipped Details Carried) (r : Profile Details) (rest : List (Profile Details))
      → let c = settle early_state resource_failover ctx s r rest in
        (c.profile ≡ none)
        ⊎ ((c.profile ≡ some r) × (c.ctx.current ≡ r ∷ rest) × (c.ctx.cdr.details ≡ r.details))
  unfolding settle
  settle_cases true failover ctx s r rest = inr (refl, refl, refl)
  settle_cases false failover ctx s r rest = elim (Bool-cases (is_zero r.disconnect_code_id)) [
    | inr refused ↦ rw refused (inl refl)
    | inl plain ↦ elim (Bool-cases failover) [
      | inl again ↦ rw (plain, again) (inr (refl, refl, refl))
      | inr moved ↦ rw (plain, moved) (inr (refl, refl, refl))
    ]
  ]

  settle_at_current :
      (early_state resource_failover : Bool) (ctx : CallCtx Details Carried)
      (s : Skipped Details Carried) (q : Profile Details) (l : List (Profile Details))
      → (settle_at early_state resource_failover ctx s l).profile ≡ some q
      → let c = settle_at early_state resource_failover ctx s l in
        (after : List (Profile Details)) × (l ≡ q ∷ after)
        × (c.ctx.current ≡ q ∷ after)
        × (c.ctx.cdr.details ≡ q.details)
  settle_at_current early failover ctx s q [] chosen = cc
  settle_at_current early failover ctx s q (r ∷ rest) chosen =
      elim (settle_cases early failover ctx s r rest) [
        | inl none_left ↦ absurd (cc)
        | inr (given, current, details) ↦
            let e : r ≡ q = cc in
            (
              rest,
              ap (λ x. x ∷ rest) e,
              current ∙ ap (λ x. x ∷ rest) e,
              details ∙ ap (λ x. x.details) e,
            )
      ]

  -- The next profile, where there is one, lies behind the current one and those that are skipped with it: none, if the
  -- current one is not to skip, and else all up to the first that is not to skip. The CDR that stays has
  -- its details.
  pub get_next_profile_order :
      (env : Env) (clock : ℕ → ℕ) (early_state resource_failover : Bool)
      (ctx : CallCtx Details Carried) (t : Translator) (p q : Profile Details)
      (rest : List (Profile Details))
      → (get_next_profile env clock early_state resource_failover ctx t p rest).profile ≡ some q
      → let c = get_next_profile env clock early_state resource_failover ctx t p rest in
        (passed : List (Profile Details)) × (after : List (Profile Details)) × (rest
          ≡ passed ++ q ∷ after)
        × (c.ctx.current ≡ q ∷ after)
        × (c.ctx.cdr.details ≡ q.details)
        × (all_skip passed ≡ true)
        × ((if is_skip p then not (is_skip q) else is_nil passed) ≡ true)
  unfolding get_next_profile
  get_next_profile_order env clock early failover ctx t p q rest chosen =
      let s = advance env clock ctx.cdr t p rest in
      let (passed, split, all, stop) = advance_next env clock ctx.cdr t p rest in
      let (after, found, current, details) =
        settle_at_current early failover ctx s q s.next chosen in
      (
        passed,
        after,
        split ∙ ap (λ l. passed ++ l) found,
        current,
        details,
        all,
        ap (λ l. if is_skip p then stops l else is_nil passed) (sym found) ∙ stop,
      )

  settle_at-keeps :
      (early_state resource_failover : Bool) (ctx : CallCtx Details Carried)
      (s : Skipped Details Carried) (l : List (Profile Details))
      → (settle_at early_state resource_failover ctx s l).profile ≡ none
      → (settle_at early_state resource_failover ctx s l).ctx ≡ ctx
  unfolding settle
  settle_at-keeps early failover ctx s [] h = refl
  settle_at-keeps true failover ctx s (q ∷ l) h = cc
  settle_at-keeps false failover ctx s (q ∷ l) h =
      elim (Bool-cases (is_zero q.disconnect_code_id)) [
        | inr refused ↦ rw refused refl
        | inl plain ↦ elim (Bool-cases failover) [
          | inl again ↦ absurd (cc (rw (plain, again) at h))
          | inr moved ↦ absurd (cc (rw (plain, moved) at h))
        ]
      ]

  -- Without a next profile the context stays as it is.
  pub get_next_profile-keeps :
      (env : Env) (clock : ℕ → ℕ) (early_state resource_failover : Bool)
      (ctx : CallCtx Details Carried) (t : Translator) (p : Profile Details)
      (rest : List (Profile Details))
      → (get_next_profile env clock early_state resource_failover ctx t p rest).profile ≡ none
      → (get_next_profile env clock early_state resource_failover ctx t p rest).ctx ≡ ctx
  unfolding get_next_profile
  get_next_profile-keeps env clock early failover ctx t p rest h =
      let s = advance env clock ctx.cdr t p rest in settle_at-keeps early failover ctx s s.next h
