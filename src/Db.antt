-- ===== src/Db.antt =====
-- src/db/DbHelpers.cpp: typed reads from a row of a database reply.
use sems_yeti.Prelude.{Bool, Option, none, some, List, []}
use sems_yeti.Prelude.Int.{ℤ}
use sems_yeti.Prelude.Classes.{Text, text_key}
use sems_yeti.Prelude.Map.{Map, find}

-- An AmArg of a row; `other` is of any type that no reader asks for.
pub data Value : Type 0 where
  undef other : Value
  bool : Bool → Value
  int : ℤ → Value
  cstr : Text → Value

abbrev pub Row : Type 0
Row = Map Text Value

-- A reply of the database: an array of rows, or something else.
abbrev pub Reply : Type 0
Reply = Option (List Row)

abbrev pub rows : Reply → List Row
rows none = []
rows (some rs) = rs

abbrev pub bool_or : Bool → Option Value → Bool
bool_or d (some (bool b)) = b
bool_or d _ = d

abbrev pub int_or : ℤ → Option Value → ℤ
int_or d (some (int n)) = n
int_or d _ = d

abbrev pub str_or : Text → Option Value → Text
str_or d (some (cstr s)) = s
str_or d _ = d

-- A missing, undefined or ill-typed member reads as the default.
unfoldable pub hash_get_bool : Row → Text → Bool → Bool
hash_get_bool a key default_value = bool_or default_value (find key a)

unfoldable pub hash_get_int : Row → Text → ℤ → ℤ
hash_get_int a key default_value = int_or default_value (find key a)

unfoldable pub hash_get_str : Row → Text → Text → Text
hash_get_str a key default_string = str_or default_string (find key a)
