-- ===== src/CallCtx/Tests.antt =====
-- A profile to skip, a second one, and one that is left.
use sems_yeti.Prelude.{
  ℕ, suc, ◌≡◌, refl, ◌≢◌, true, false, not, List, [], ◌∷◌, ◌++◌, none, some, length,
}
use sems_yeti.Prelude.Int.{pos}
use sems_yeti.Prelude.Map.{find}
use sems_yeti.Prelude.Classes.{Text, codes}
use sems_yeti.Codes.{Translator, Env, translate_db_code}
use sems_yeti.Cdr.{first_cdr}
use sems_yeti.CallCtx.{Profile, CallCtx, Chosen, is_skip, get_next_profile}
use sems_yeti.CallCtx.Attempts.{count_from, numbers, get_next_profile-numbers}
use sems_yeti.CallCtx.Order.{all_skip, get_next_profile_order}

abbrev empty : Translator
empty = record {
  code2pref = [];
  code2prefs_overrides = [];
  code2trans = [];
  code2trans_overrides = [];
  icode2resp = [];
  icode2resp_overrides = [];
  stat = record {
    unknown_response_codes = 0;
    missed_response_configs = 0;
    unknown_internal_codes = 0;
  };
}

abbrev env : Env
env = record {
  no_reply_code = 0;
  int2str = λ n. codes "8";
  server_internal_error = codes "Server Internal Error";
  early_100_trying = true;
}

abbrev profile : ℕ → ℕ → Profile ℕ
profile skip_code route = record {
  skip_code_id = pos skip_code;
  disconnect_code_id = pos 0;
  aleg_override_id = pos 0;
  bleg_override_id = pos 0;
  rl = [];
  resource_handler = [];
  details = route;
}

abbrev others : List (Profile ℕ)
others = profile 8 2 ∷ profile 0 3 ∷ profile 0 4 ∷ []

abbrev ctx : CallCtx ℕ Text
ctx = record {
  profiles = profile 8 1 ∷ others;
  current = profile 8 1 ∷ others;
  cdr = first_cdr (codes "start") 1;
}

abbrev next : Chosen ℕ Text
next = get_next_profile env (λ n. n) true false ctx empty (profile 8 1) others

next_is : next.profile ≡ some (profile 0 3)
unfolding get_next_profile translate_db_code find
next_is = refl

next_exists : next.profile ≢ none
next_exists e = cc next_is

get_next_profile-numbers_example :
    numbers next.written ++ next.ctx.cdr.attempt_num ∷ [] ≡ count_from 1 (suc (length next.written))
get_next_profile-numbers_example =
    get_next_profile-numbers env (λ n. n) true false ctx empty (profile 8 1) others refl refl
      next_exists

get_next_profile_order_example :
    (passed : List (Profile ℕ)) × (after : List (Profile ℕ)) × (others
      ≡ passed ++ profile 0 3 ∷ after)
    × (next.ctx.current ≡ profile 0 3 ∷ after)
    × (next.ctx.cdr.details ≡ 3)
    × (all_skip passed ≡ true)
    × (not (is_skip (profile 0 3)) ≡ true)
get_next_profile_order_example =
    get_next_profile_order env (λ n. n) true false ctx empty (profile 8 1) (profile 0 3) others
      next_is
