-- ===== src/CallCtx.antt =====
-- src/CallCtx.cpp: the routes of a call and its CDRs. `attempt_num` is a number without bound; `clock` is
-- the reading of the clock when the CDR of an attempt is closed.
mod Tests
pub mod Attempts
pub mod Order
use sems_yeti.Prelude.{
  ℕ, suc, ◌+◌, Bool, true, false, not, ◌==◌, List, [], ◌∷◌, ◌++◌, Option, none, some, if◌then◌else◌,
}
use sems_yeti.Prelude.Int.{ℤ, pos}
use sems_yeti.Prelude.Words.{bits}
use sems_yeti.Prelude.Classes.{Text}
use sems_yeti.Resource.{Resource}
use sems_yeti.Cdr.{Cdr, by_ts, first_cdr, next_cdr, update_sql, update_internal_reason, write_cdr}
use sems_yeti.Sequences.{is_zero}
use sems_yeti.Codes.{Translator, Translation, Env, translate_db_code}

pub record Profile (Details : Type 0) : Type 0 where
  pub skip_code_id : ℤ
  pub disconnect_code_id : ℤ
  pub aleg_override_id : ℤ
  pub bleg_override_id : ℤ
  pub rl : List Resource
  pub resource_handler : Text
  pub details : Details

abbrev pub is_skip : {Details : Type 0} → Profile Details → Bool
is_skip p = not (is_zero p.skip_code_id)

-- `current` is the list from the iterator `current_profile` on, empty at `profiles.end()`.
pub record CallCtx (Details Carried : Type 0) : Type 0 where
  pub profiles : List (Profile Details)
  pub current : List (Profile Details)
  pub cdr : Cdr Details Carried

-- Where a loop over the profiles stops.
pub record Skipped (Details Carried : Type 0) : Type 0 where
  pub translator : Translator
  pub attempts : ℕ
  pub written : List (Cdr Details Carried)
  pub next : List (Profile Details)

-- `profile` is `none` for a null pointer.
pub record Chosen (Details Carried : Type 0) : Type 0 where
  pub ctx : CallCtx Details Carried
  pub translator : Translator
  pub written : List (Cdr Details Carried)
  pub profile : Option (Profile Details)

module _ {Details Carried : Type 0} where
  -- The CDR of a skipped profile.
  unfoldable pub skip_cdr :
      (ℕ → ℕ) → Cdr Details Carried → ℕ → Profile Details → Translation → Cdr Details Carried
  unfolding update_internal_reason
  skip_cdr clock cdr attempts p t =
      update_internal_reason by_ts t.internal_reason t.internal_code (clock attempts)
        (record (next_cdr cdr p.details) { attempt_num = attempts })

  abbrev pub wrote : List (Cdr Details Carried) → Skipped Details Carried → Skipped Details Carried
  wrote cs s = record s { written = cs ++ s.written }

  -- The body of the loop, for the profile at the iterator: no profile is chosen yet.
  unfoldable pub skip_one :
      Env
      → (ℕ → ℕ)
      → Cdr Details Carried
      → ℕ
      → Translator
      → Profile Details
      → Skipped Details Carried
  unfolding skip_cdr
  skip_one env clock cdr attempts t p =
      let (t', tr) = translate_db_code env (bits p.skip_code_id) p.aleg_override_id t in
      if tr.write_cdr
      then record {
        translator = t';
        attempts = suc attempts;
        written = write_cdr false (skip_cdr clock cdr attempts p tr);
        next = [];
      }
      else record { translator = t'; attempts = attempts; written = []; next = [] }

  -- The loop over profiles with a `skip_code_id`, from the profile at the iterator and those behind.
  unfoldable pub skip :
      Env
      → (ℕ → ℕ)
      → Cdr Details Carried
      → ℕ
      → Translator
      → Profile Details
      → List (Profile Details)
      → Skipped Details Carried
  skip env clock cdr attempts t p [] = skip_one env clock cdr attempts t p
  skip env clock cdr attempts t p (q ∷ rest) =
      let s = skip_one env clock cdr attempts t p in
      let more = wrote s.written (skip env clock cdr s.attempts s.translator q rest) in
      if is_skip q then more else record s { next = q ∷ rest }

  -- Up to the first `return nullptr`: the profiles from `next` on, empty at the end.
  unfoldable pub advance :
      Env
      → (ℕ → ℕ)
      → Cdr Details Carried
      → Translator
      → Profile Details
      → List (Profile Details)
      → Skipped Details Carried
  unfolding skip
  advance env clock cdr t p rest =
      if is_skip p
      then skip env clock cdr cdr.attempt_num t p rest
      else record { translator = t; attempts = cdr.attempt_num; written = []; next = rest }

  -- `return nullptr`: the call context stays as it is.
  abbrev pub no_profile : CallCtx Details Carried → Skipped Details Carried → Chosen Details Carried
  no_profile ctx s = record {
    ctx = ctx;
    translator = s.translator;
    written = s.written;
    profile = none;
  }

  -- The end of the function: the profile `q`, with the CDR and the counter as they are then.
  abbrev pub choose :
      CallCtx Details Carried
      → Skipped Details Carried
      → List (Cdr Details Carried)
      → Cdr Details Carried
      → ℕ
      → Profile Details
      → List (Profile Details)
      → Chosen Details Carried
  choose ctx s cs cdr attempts q rest = record {
    ctx = record ctx { current = q ∷ rest; cdr = record cdr { attempt_num = attempts } };
    translator = s.translator;
    written = s.written ++ cs;
    profile = some q;
  }

  -- Behind the loop, at the profile `q`.
  unfoldable pub settle :
      Bool
      → Bool
      → CallCtx Details Carried
      → Skipped Details Carried
      → Profile Details
      → List (Profile Details)
      → Chosen Details Carried
  settle early_state resource_failover ctx s q rest =
      let reuse = choose ctx s [] (update_sql q.details ctx.cdr) s.attempts q rest in
      if early_state
      then reuse
      else (if not (is_zero q.disconnect_code_id)
          then no_profile ctx s
          else (if resource_failover
              then reuse
              else choose ctx s (write_cdr false ctx.cdr) (next_cdr ctx.cdr q.details)
                  (suc s.attempts) q rest))

  -- With the profiles from the iterator on.
  abbrev pub settle_at :
      Bool
      → Bool
      → CallCtx Details Carried
      → Skipped Details Carried
      → List (Profile Details)
      → Chosen Details Carried
  settle_at early_state resource_failover ctx s [] = no_profile ctx s
  settle_at early_state resource_failover ctx s (q ∷ rest) =
      settle early_state resource_failover ctx s q rest

  -- `getNextProfile`, with a current profile `p` and those behind it; it is never called at the end
  -- of the list.
  unfoldable pub get_next_profile :
      Env
      → (ℕ → ℕ)
      → Bool
      → Bool
      → CallCtx Details Carried
      → Translator
      → Profile Details
      → List (Profile Details)
      → Chosen Details Carried
  unfolding advance settle
  get_next_profile env clock early_state resource_failover ctx t p rest =
      let s = advance env clock ctx.cdr t p rest in
      settle_at early_state resource_failover ctx s s.next

  unfoldable pub get_first_profile :
      Carried → CallCtx Details Carried → CallCtx Details Carried × Option (Profile Details)
  get_first_profile blank ctx = elim ctx.profiles [
    | [] ↦ (ctx, none)
    | p ∷ ps ↦ (record ctx { current = ctx.profiles; cdr = first_cdr blank p.details }, some p)
  ]

  unfoldable pub get_override_id : Bool → CallCtx Details Carried → ℤ
  get_override_id aleg ctx = elim ctx.current [
    | [] ↦ pos 0
    | p ∷ ps ↦ if aleg then p.aleg_override_id else p.bleg_override_id
  ]

  -- `none` is the exception "500".
  unfoldable pub get_current_resource_list : CallCtx Details Carried → Option (List Resource)
  get_current_resource_list ctx = elim ctx.current [ [] ↦ none | p ∷ ps ↦ some p.rl ]
