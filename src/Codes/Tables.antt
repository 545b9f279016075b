-- ===== src/Codes/Tables.antt =====
-- What the translator answers after its tables were loaded: the first row that fits decides.
use sems_yeti.Prelude.{
  ℕ, ◌==◌, ==_iff, ◌≡◌, refl, ap, ◌∙◌, inl, inr, ◌&&◌, Option, none, some, List, [], ◌∷◌, arith,
  if◌then◌else◌, Bool-cases, Option-cases, true, false, ◌++◌,
}
use mathlib.Core.Path.{ap₂}
use sems_yeti.Prelude.Int.{ℤ}
use sems_yeti.Prelude.Words.{bits}
use sems_yeti.Prelude.Classes.{Text, codes, nat_eq}
use sems_yeti.Prelude.Map.{Map, or_new, find, emplace, find-emplace, find-assign}
use sems_yeti.Db
use sems_yeti.Db.{Row, rows}
use sems_yeti.Codes.{
  Translator, Translation, Trans, Icode, Env, load_rows, load_override_rows, emplace_override,
  or_empty, find_override, column, read_pref, read_trans, read_icode, read_icode_override,
  load_rerouting, load_rewrite, load_refuse, load_rerouting_overrides, load_rewrite_overrides,
  load_refuse_overrides, stop_hunting, rewrite_response, translate_db_code, apply_trans,
  apply_internal, count_missed_config, count_unknown_response, count_unknown_internal,
}

module _ {V : Type 0} (key : Row → ℕ) (value : Row → V) where
  -- The value of the first row for a code.
  pub first_row : ℕ → List Row → Option V
  first_row code [] = none
  first_row code (row ∷ rs) = if key row == code then some (value row) else first_row code rs

  or_first : Option V → Option V → Option V
  or_first none o = o
  or_first (some v) o = some v

  load_rows-find :
      (code : ℕ) (rs : List Row) (m : Map ℕ V)
      → find code (load_rows key value rs m) ≡ or_first (find code m) (first_row code rs)
  unfolding load_rows or_first first_row
  load_rows-find code [] m = ground arith
  load_rows-find code (row ∷ rs) m =
      load_rows-find code rs (emplace (key row) (value row) m)
      ∙ rw (find-emplace (key row) code (value row) m) (ground arith)

  pub load_rows-first_row :
      (code : ℕ) (rs : List Row) → find code (load_rows key value rs []) ≡ first_row code rs
  unfolding find or_first
  load_rows-first_row code rs = load_rows-find code rs []

  module _ (policy : Row → ℕ) where
    -- The value of the first row for a policy and a code.
    pub first_override : ℕ → ℕ → List Row → Option V
    first_override p code [] = none
    first_override p code (row ∷ rs) =
        if policy row == p && key row == code then some (value row) else first_override p code rs

    in_table : ℕ → Option (Map ℕ V) → Option V
    in_table code none = none
    in_table code (some m) = find code m

    emplace-in_table :
        (code k : ℕ) (v : V) (o : Option (Map ℕ V))
        → in_table code (some (emplace k v (or_empty o)))
          ≡ (if k == code then or_new (in_table code o) v else in_table code o)
    unfolding in_table
    emplace-in_table code k v none = unfold find emplace in ground arith
    emplace-in_table code k v (some m) = find-emplace k code v m

    emplace_override-find :
        (p code q k : ℕ) (v : V) (m : Map ℕ (Map ℕ V))
        → in_table code (find p (emplace_override q k v m)) ≡ (
            if q == p && k == code
            then or_new (in_table code (find p m)) v
            else in_table code (find p m))
    unfolding emplace_override in_table
    emplace_override-find p code q k v m =
        rw (find-assign q p (emplace k v (or_empty (find q m))) m) (elim (Bool-cases (q == p)) [
          | inr e ↦ rw e refl
          | inl e ↦ rw e (
              emplace-in_table code k v (find q m)
              ∙ ap
                  (λ x.
                    if k == code
                    then or_new (in_table code (find x m)) v
                    else in_table code (find x m))
                  ((==_iff q p).0 e))
        ])

    load_override_rows-find :
        (p code : ℕ) (rs : List Row) (m : Map ℕ (Map ℕ V))
        → in_table code (find p (load_override_rows policy key value rs m))
          ≡ or_first (in_table code (find p m)) (first_override p code rs)
    unfolding load_override_rows or_first first_override
    load_override_rows-find p code [] m = ground arith
    load_override_rows-find p code (row ∷ rs) m =
        load_override_rows-find p code rs (emplace_override (policy row) (key row) (value row) m)
        ∙ rw (emplace_override-find p code (policy row) (key row) (value row) m) (ground arith)

    -- The value of the first row for a policy that is not 0.
    pub first_policy : ℤ → ℕ → List Row → Option V
    first_policy override_id code rs =
        if bits override_id == 0 then none else first_override (bits override_id) code rs

    find_override-in_table :
        (override_id : ℤ) (code : ℕ) (m : Map ℕ (Map ℕ V))
        → find_override override_id code m
          ≡ (if bits override_id == 0 then none else in_table code (find (bits override_id) m))
    unfolding find_override in_table
    find_override-in_table override_id code m = ground arith

    pub find_override-first_policy :
        (override_id : ℤ) (code : ℕ) (rs : List Row)
        → find_override override_id code (load_override_rows policy key value rs [])
          ≡ first_policy override_id code rs
    unfolding first_policy
    find_override-first_policy override_id code rs =
        find_override-in_table override_id code _
        ∙ rw (load_override_rows-find (bits override_id) code rs [])
            (unfold find in_table or_first in refl)

-- An override, else a global entry, else a default.
abbrev pub answer {ℓ} : {V : Type 0} {R : Type ℓ} → Option V → Option V → (V → R) → R → R
answer (some v) g f d = f v
answer none (some v) f d = f v
answer none none f d = d

-- What a row of the table for responses makes of a reason: the code of the row, and the reason as it came
-- or that of the row.
abbrev pub rewritten : Trans → Text → ℕ × Text
rewritten tr reason = elim tr.pass_reason_to_originator [
  | true ↦ (bits tr.rewrite_code, reason)
  | false ↦ (bits tr.rewrite_code, tr.rewrite_reason)
]

-- What a row of the table for internal codes stands for: its codes and reasons, where a silent drop hides
-- the response, unless a 100 is sent early.
abbrev pub described : Env → Icode → Translation
described env c = record {
  internal_code = bits c.internal_code;
  internal_reason = c.internal_reason;
  response_code =
      if c.silently_drop
      then (if env.early_100_trying then bits c.response_code else env.no_reply_code)
      else bits c.response_code;
  response_reason =
      if c.silently_drop
      then (if env.early_100_trying then c.response_reason else [])
      else c.response_reason;
  write_cdr = c.store_cdr;
}

abbrev pub server_error : Env → ℕ → Translation
server_error env code = record {
  internal_code = 500;
  internal_reason = codes "Internal code " ++ env.int2str code;
  response_code = 500;
  response_reason = env.server_internal_error;
  write_cdr = true;
}

apply_trans-rewritten : (tr : Trans) (reason : Text) → apply_trans tr reason ≡ rewritten tr reason
apply_trans-rewritten tr reason = ground arith

apply_internal-described : (env : Env) (c : Icode) → apply_internal env c ≡ described env c
unfolding apply_internal
apply_internal-described env c = ground arith

stop_hunting-answer :
    (code : ℕ) (override_id : ℤ) (t : Translator)
    → stop_hunting code override_id t
      ≡ answer
          (find_override override_id code t.code2prefs_overrides)
          (find code t.code2pref)
          (λ stop. (t, stop))
          (count_missed_config t, true)
unfolding stop_hunting
stop_hunting-answer code override_id t = ground arith

rewrite_response-answer :
    (code : ℕ) (reason : Text) (override_id : ℤ) (t : Translator)
    → rewrite_response code reason override_id t
      ≡ answer
          (find_override override_id code t.code2trans_overrides)
          (find code t.code2trans)
          (λ tr. (t, rewritten tr reason))
          (count_unknown_response t, (code, reason))
unfolding rewrite_response
rewrite_response-answer code reason override_id t =
    elim (Option-cases (find_override override_id code t.code2trans_overrides)) [
      | inr (tr, own) ↦ ground (arith, own, apply_trans-rewritten tr reason)
      | inl none_own ↦ elim (Option-cases (find code t.code2trans)) [
        | inr (tr, global) ↦ ground (arith, none_own, global, apply_trans-rewritten tr reason)
        | inl none_global ↦ ground (arith, none_own, none_global)
      ]
    ]

translate_db_code-answer :
    (env : Env) (code : ℕ) (override_id : ℤ) (t : Translator)
    → translate_db_code env code override_id t
      ≡ answer
          (find_override override_id code t.icode2resp_overrides)
          (find code t.icode2resp)
          (λ c. (t, described env c))
          (count_unknown_internal t, server_error env code)
unfolding translate_db_code
translate_db_code-answer env code override_id t =
    elim (Option-cases (find_override override_id code t.icode2resp_overrides)) [
      | inr (c, own) ↦ ground (arith, own, apply_internal-described env c)
      | inl none_own ↦ elim (Option-cases (find code t.icode2resp)) [
        | inr (c, global) ↦ ground (arith, none_own, global, apply_internal-described env c)
        | inl none_global ↦ ground (arith, none_own, none_global)
      ]
    ]

-- Whether to go on to the next route: the first row of the policy for the code decides, else the first
-- row of the global table for it, else hunting stops and the miss is counted; policy 0 has no rows.
pub stop_hunting_tables :
    (global policies : Db.Reply) (code : ℕ) (override_id : ℤ) (t : Translator)
    → let t' = load_rerouting_overrides policies (load_rerouting global t) in
      let received = column (codes "received_code") in
      stop_hunting code override_id t'
      ≡ answer
          (first_policy received read_pref
            (column (codes "policy_id"))
            override_id
            code
            (rows policies))
          (first_row received read_pref code (rows global))
          (λ stop. (t', stop))
          (count_missed_config t', true)
unfolding load_rerouting_overrides load_rerouting
stop_hunting_tables global policies code override_id t =
    let t' = load_rerouting_overrides policies (load_rerouting global t) in
    let received = column (codes "received_code") in
    stop_hunting-answer code override_id t'
    ∙ ap₂ (λ o g. answer o g (λ stop. (t', stop)) (count_missed_config t', true))
        (find_override-first_policy received read_pref (column (codes "policy_id")) override_id code
          (rows policies))
        (load_rows-first_row received read_pref code (rows global))

-- The answer to a response code: the first row of the policy for the code rewrites it, else the first
-- row of the global table for it, else code and reason stay as they are and the miss is counted.
pub rewrite_response_tables :
    (global policies : Db.Reply) (code : ℕ) (reason : Text) (override_id : ℤ) (t : Translator)
    → let t' = load_rewrite_overrides policies (load_rewrite global t) in
      let key = column (codes "o_code") in
      rewrite_response code reason override_id t'
      ≡ answer
          (first_policy key read_trans
            (column (codes "o_policy_id"))
            override_id
            code
            (rows policies))
          (first_row key read_trans code (rows global))
          (λ tr. (t', rewritten tr reason))
          (count_unknown_response t', (code, reason))
unfolding load_rewrite_overrides load_rewrite
rewrite_response_tables global policies code reason override_id t =
    let t' = load_rewrite_overrides policies (load_rewrite global t) in
    let key = column (codes "o_code") in
    rewrite_response-answer code reason override_id t'
    ∙ ap₂
        (λ o g.
          answer o g (λ tr. (t', rewritten tr reason)) (count_unknown_response t', (code, reason)))
        (find_override-first_policy key read_trans (column (codes "o_policy_id")) override_id code
          (rows policies))
        (load_rows-first_row key read_trans code (rows global))

-- The translation of an internal code: by the first row of the policy for it, else by the first row of
-- the global table for it, where a silent drop hides the response unless a 100 is sent early, else a counted
-- 500 for which a CDR is written.
pub translate_db_code_tables :
    (env : Env) (global policies : Db.Reply) (code : ℕ) (override_id : ℤ) (t : Translator)
    → let t' = load_refuse_overrides policies (load_refuse global t) in
      let key = column (codes "o_id") in
      translate_db_code env code override_id t'
      ≡ answer
          (first_policy key read_icode_override
            (column (codes "policy_id"))
            override_id
            code
            (rows policies))
          (first_row key read_icode code (rows global))
          (λ c. (t', described env c))
          (count_unknown_internal t', server_error env code)
unfolding load_refuse_overrides load_refuse
translate_db_code_tables env global policies code override_id t =
    let t' = load_refuse_overrides policies (load_refuse global t) in
    let key = column (codes "o_id") in
    translate_db_code-answer env code override_id t'
    ∙ ap₂
        (λ o g.
          answer o g (λ c. (t', described env c))
            (count_unknown_internal t', server_error env code))
        (find_override-first_policy key read_icode_override (column (codes "policy_id")) override_id
          code (rows policies))
        (load_rows-first_row key read_icode code (rows global))
