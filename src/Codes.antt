-- ===== src/Codes.antt =====
-- src/CodesTranslator.h and .cpp: translation of disconnect codes, by tables from the database with
-- overrides for a policy. A lock guards each pair of tables, so a call is one step.
mod Tests
pub mod Tables
use sems_yeti.Prelude.{
  ℕ, ◌+◌, ◌%◌, ◌^◌, ◌==◌, Bool, true, false, not, ◌&&◌, Option, none, some, List, [], ◌∷◌, ◌++◌,
  if◌then◌else◌,
}
use sems_yeti.Prelude.Int.{ℤ, pos}
use sems_yeti.Prelude.Words.{bits}
use sems_yeti.Prelude.Classes.{Text, codes, nat_eq}
use sems_yeti.Prelude.Map.{Map, find, emplace, assign}
use sems_yeti.Db
use sems_yeti.Db.{Row, rows, hash_get_bool, hash_get_int, hash_get_str}

-- The response translation `trans`.
pub record Trans : Type 0 where
  pub pass_reason_to_originator : Bool
  pub rewrite_code : ℤ
  pub rewrite_reason : Text

-- The internal code `icode`.
pub record Icode : Type 0 where
  pub internal_code : ℤ
  pub response_code : ℤ
  pub internal_reason : Text
  pub response_reason : Text
  pub store_cdr : Bool
  pub silently_drop : Bool

-- Counters of `unsigned int`.
pub record Stat : Type 0 where
  pub unknown_response_codes : ℕ
  pub missed_response_configs : ℕ
  pub unknown_internal_codes : ℕ

-- The keys are `unsigned int`; `pref` is its one field, `is_stop_hunting`.
pub record Translator : Type 0 where
  pub code2pref : Map ℕ Bool
  pub code2prefs_overrides : Map ℕ (Map ℕ Bool)
  pub code2trans : Map ℕ Trans
  pub code2trans_overrides : Map ℕ (Map ℕ Trans)
  pub icode2resp : Map ℕ Icode
  pub icode2resp_overrides : Map ℕ (Map ℕ Icode)
  pub stat : Stat

abbrev pub bump : ℕ → ℕ
bump n = (n + 1) % 2 ^ 32

abbrev pub or_text : Text → Text → Text
or_text [] t = t
or_text (b ∷ s) t = b ∷ s

-- The loops of the loaders: `key` and `value` read a row, `emplace` keeps an earlier row.
module _ {V : Type 0} where
  unfoldable pub load_rows : (Row → ℕ) → (Row → V) → List Row → Map ℕ V → Map ℕ V
  load_rows key value [] m = m
  load_rows key value (row ∷ rs) m = load_rows key value rs (emplace (key row) (value row) m)

  abbrev pub or_empty : Option (Map ℕ V) → Map ℕ V
  or_empty none = []
  or_empty (some m) = m

  -- `_overrides.emplace(override_id, {}).first->second.emplace(code, v)`
  unfoldable pub emplace_override : ℕ → ℕ → V → Map ℕ (Map ℕ V) → Map ℕ (Map ℕ V)
  emplace_override override_id code v m =
      assign override_id (emplace code v (or_empty (find override_id m))) m

  unfoldable pub load_override_rows :
      (Row → ℕ) → (Row → ℕ) → (Row → V) → List Row → Map ℕ (Map ℕ V) → Map ℕ (Map ℕ V)
  load_override_rows policy key value [] m = m
  load_override_rows policy key value (row ∷ rs) m =
      load_override_rows policy key value rs (emplace_override (policy row) (key row) (value row) m)

-- The columns; an `int` becomes an `unsigned int` as a key.
abbrev pub column : Text → Row → ℕ
column name row = bits (hash_get_int row name (pos 0))

abbrev pub read_pref : Row → Bool
read_pref row = hash_get_bool row (codes "stop_rerouting") true

abbrev pub read_trans : Row → Trans
read_trans row = record {
  pass_reason_to_originator = hash_get_bool row (codes "o_pass_reason_to_originator") false;
  rewrite_code =
      hash_get_int row (codes "o_rewrited_code") (hash_get_int row (codes "o_code") (pos 0));
  rewrite_reason =
      or_text (hash_get_str row (codes "o_rewrited_reason") [])
        (hash_get_str row (codes "o_reason") []);
}

-- The overrides keep an empty reason; the global table takes the internal one for it.
abbrev pub read_icode_with : (Text → Text → Text) → Row → Icode
read_icode_with reason row =
    let internal_code = hash_get_int row (codes "o_code") (pos 0) in
    let internal_reason = hash_get_str row (codes "o_reason") [] in
    record {
      internal_code = internal_code;
      response_code = hash_get_int row (codes "o_rewrited_code") internal_code;
      internal_reason = internal_reason;
      response_reason = reason (hash_get_str row (codes "o_rewrited_reason") []) internal_reason;
      store_cdr = hash_get_bool row (codes "o_store_cdr") true;
      silently_drop = hash_get_bool row (codes "o_silently_drop") false;
    }

abbrev pub read_icode : Row → Icode
read_icode = read_icode_with or_text

abbrev pub read_icode_override : Row → Icode
read_icode_override = read_icode_with (λ s t. s)

unfoldable pub load_rerouting : Db.Reply → Translator → Translator
load_rerouting reply t = record t {
  code2pref = load_rows (column (codes "received_code")) read_pref (rows reply) [];
}

unfoldable pub load_rewrite : Db.Reply → Translator → Translator
load_rewrite reply t = record t {
  code2trans = load_rows (column (codes "o_code")) read_trans (rows reply) [];
}

unfoldable pub load_refuse : Db.Reply → Translator → Translator
load_refuse reply t = record t {
  icode2resp = load_rows (column (codes "o_id")) read_icode (rows reply) [];
}

unfoldable pub load_refuse_overrides : Db.Reply → Translator → Translator
load_refuse_overrides reply t = record t {
  icode2resp_overrides =
      load_override_rows (column (codes "policy_id")) (column (codes "o_id")) read_icode_override
        (rows reply) [];
}

unfoldable pub load_rerouting_overrides : Db.Reply → Translator → Translator
load_rerouting_overrides reply t = record t {
  code2prefs_overrides =
      load_override_rows (column (codes "policy_id")) (column (codes "received_code")) read_pref
        (rows reply) [];
}

unfoldable pub load_rewrite_overrides : Db.Reply → Translator → Translator
load_rewrite_overrides reply t = record t {
  code2trans_overrides =
      load_override_rows (column (codes "o_policy_id")) (column (codes "o_code")) read_trans
        (rows reply) [];
}

-- The override of a policy, where there is one for the code; 0 is no policy.
unfoldable pub find_override {ℓ} : {V : Type ℓ} → ℤ → ℕ → Map ℕ (Map ℕ V) → Option V
find_override override_id code m =
    if bits override_id == 0
    then none
    else elim (find (bits override_id) m) [ none ↦ none | some table ↦ find code table ]

-- A code and a reason by a translation.
abbrev pub apply_trans : Trans → Text → ℕ × Text
apply_trans t reason =
    (bits t.rewrite_code, if t.pass_reason_to_originator then reason else t.rewrite_reason)

abbrev pub count_unknown_response : Translator → Translator
count_unknown_response t = record t {
  stat = record (t.stat) { unknown_response_codes = bump t.stat.unknown_response_codes };
}

unfoldable pub rewrite_response : ℕ → Text → ℤ → Translator → Translator × (ℕ × Text)
unfolding find_override
rewrite_response code reason override_id t =
    elim (find_override override_id code t.code2trans_overrides) [
      | some tr ↦ (t, apply_trans tr reason)
      | none ↦ elim (find code t.code2trans) [
        | some tr ↦ (t, apply_trans tr reason)
        | none ↦ (count_unknown_response t, (code, reason))
      ]
    ]

abbrev pub count_missed_config : Translator → Translator
count_missed_config t = record t {
  stat = record (t.stat) { missed_response_configs = bump t.stat.missed_response_configs };
}

unfoldable pub stop_hunting : ℕ → ℤ → Translator → Translator × Bool
unfolding find_override
stop_hunting code override_id t = elim (find_override override_id code t.code2prefs_overrides) [
  | some stop ↦ (t, stop)
  | none ↦ elim (find code t.code2pref) [
    | some stop ↦ (t, stop)
    | none ↦ (count_missed_config t, true)
  ]
]

-- What an internal code gives: codes and reasons, and whether a CDR is written.
pub record Translation : Type 0 where
  pub internal_code : ℕ
  pub internal_reason : Text
  pub response_code : ℕ
  pub response_reason : Text
  pub write_cdr : Bool

-- Of the SEMS core and the configuration: NO_REPLY_DISCONNECT_CODE, `int2str`,
-- SIP_REPLY_SERVER_INTERNAL_ERROR and `early_100_trying`.
pub record Env : Type 0 where
  pub no_reply_code : ℕ
  pub int2str : ℕ → Text
  pub server_internal_error : Text
  pub early_100_trying : Bool

unfoldable pub apply_internal : Env → Icode → Translation
apply_internal env c =
    let silent = c.silently_drop && not env.early_100_trying in
    record {
      internal_code = bits c.internal_code;
      internal_reason = c.internal_reason;
      response_code = if silent then env.no_reply_code else bits c.response_code;
      response_reason = if silent then [] else c.response_reason;
      write_cdr = c.store_cdr;
    }

abbrev pub count_unknown_internal : Translator → Translator
count_unknown_internal t = record t {
  stat = record (t.stat) { unknown_internal_codes = bump t.stat.unknown_internal_codes };
}

abbrev pub unknown_internal : Env → ℕ → Translation
unknown_internal env code = record {
  internal_code = 500;
  internal_reason = codes "Internal code " ++ env.int2str code;
  response_code = 500;
  response_reason = env.server_internal_error;
  write_cdr = true;
}

unfoldable pub translate_db_code : Env → ℕ → ℤ → Translator → Translator × Translation
unfolding find_override apply_internal
translate_db_code env code override_id t =
    elim (find_override override_id code t.icode2resp_overrides) [
      | some c ↦ (t, apply_internal env c)
      | none ↦ elim (find code t.icode2resp) [
        | some c ↦ (t, apply_internal env c)
        | none ↦ (count_unknown_internal t, unknown_internal env code)
      ]
    ]
