-- ===== src/Codes/Tests.antt =====
-- Two rows for one code, and an override of policy 3.
use sems_yeti.Prelude.{◌≡◌, refl, true, false, some, [], ◌∷◌}
use sems_yeti.Prelude.Int.{pos}
use sems_yeti.Prelude.Classes.{codes}
use sems_yeti.Prelude.Map.{find, emplace, assign}
use sems_yeti.Db
use sems_yeti.Db.{Row, int, bool, cstr, rows, hash_get_bool, hash_get_int}
use sems_yeti.Codes.{
  Translator, Env, load_rows, load_override_rows, emplace_override, column, read_pref, read_trans,
  read_icode, read_icode_override, load_rerouting, load_rewrite, load_refuse,
  load_rerouting_overrides, load_rewrite_overrides, load_refuse_overrides, stop_hunting,
  rewrite_response, translate_db_code, count_missed_config, count_unknown_response,
  count_unknown_internal,
}
use sems_yeti.Codes.Tables.{
  rewritten, described, server_error, first_row, first_policy, answer, stop_hunting_tables,
  rewrite_response_tables, translate_db_code_tables,
}

abbrev empty : Translator
empty = record {
  code2pref = [];
  code2prefs_overrides = [];
  code2trans = [];
  code2trans_overrides = [];
  icode2resp = [];
  icode2resp_overrides = [];
  stat = record {
    unknown_response_codes = 0;
    missed_response_configs = 0;
    unknown_internal_codes = 0;
  };
}

abbrev busy : Row
busy =
    (codes "received_code", int (pos 486))
    ∷ (codes "stop_rerouting", bool false)
    ∷ (codes "o_code", int (pos 486))
    ∷ (codes "o_id", int (pos 113))
    ∷ (codes "o_reason", cstr (codes "Busy"))
    ∷ []

abbrev global : Db.Reply
global = some (busy ∷ ((codes "received_code", int (pos 486)) ∷ []) ∷ [])

abbrev policies : Db.Reply
policies =
    some (((codes "policy_id", int (pos 3)) ∷ (codes "received_code", int (pos 503)) ∷ []) ∷ [])

abbrev env : Env
env = record {
  no_reply_code = 9999;
  int2str = λ n. [];
  server_internal_error = codes "Server Internal Error";
  early_100_trying = false;
}

-- The first of the two rows decides.
stop_hunting_first :
    (stop_hunting 486 (pos 3) (load_rerouting_overrides policies (load_rerouting global empty))).1
    ≡ false
unfolding stop_hunting load_rerouting_overrides load_rerouting load_rows load_override_rows
    emplace_override find emplace assign hash_get_bool hash_get_int
stop_hunting_first = refl

stop_hunting_tables_example :
    let t' = load_rerouting_overrides policies (load_rerouting global empty) in
    let received = column (codes "received_code") in
    stop_hunting 486 (pos 3) t'
    ≡ answer
        (first_policy received read_pref (column (codes "policy_id")) (pos 3) 486 (rows policies))
        (first_row received read_pref 486 (rows global))
        (λ stop. (t', stop))
        (count_missed_config t', true)
stop_hunting_tables_example = stop_hunting_tables global policies 486 (pos 3) empty

rewrite_response_tables_example :
    let t' = load_rewrite_overrides policies (load_rewrite global empty) in
    let key = column (codes "o_code") in
    rewrite_response 486 (codes "Occupied") (pos 3) t'
    ≡ answer
        (first_policy key read_trans (column (codes "o_policy_id")) (pos 3) 486 (rows policies))
        (first_row key read_trans 486 (rows global))
        (λ tr. (t', rewritten tr (codes "Occupied")))
        (count_unknown_response t', (486, codes "Occupied"))
rewrite_response_tables_example =
    rewrite_response_tables global policies 486 (codes "Occupied") (pos 3) empty

translate_db_code_tables_example :
    let t' = load_refuse_overrides policies (load_refuse global empty) in
    let key = column (codes "o_id") in
    translate_db_code env 113 (pos 3) t'
    ≡ answer
        (first_policy key read_icode_override
          (column (codes "policy_id"))
          (pos 3)
          113
          (rows policies))
        (first_row key read_icode 113 (rows global))
        (λ c. (t', described env c))
        (count_unknown_internal t', server_error env 113)
translate_db_code_tables_example = translate_db_code_tables env global policies 113 (pos 3) empty
