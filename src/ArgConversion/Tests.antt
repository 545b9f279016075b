-- ===== src/ArgConversion/Tests.antt =====
-- A struct that holds a text with a space, and an array; hexadecimal digits in lower case.
use sems_yeti.Prelude.{
  ℕ, ◌+◌, ◌-◌, ◌*◌, ◌/◌, ◌%◌, ◌^◌, ◌<◌, ◌≡◌, refl, ap, ◌∙◌, Option, none, some, [], ◌∷◌, arith, ltb,
  if◌then◌else◌,
}
use sems_yeti.Prelude.Classes.{Text, codes}
use sems_yeti.ArgConversion.{
  Arg, cstr, array, struct, nil, cons, end, field, digits, field_count, size, text_lt, arg2string,
  arg2username, username2arg, within_int, ok,
}
use sems_yeti.ArgConversion.Plain.{
  IsPlain, plain_cstr, plain_array, plain_struct, plain_nil, plain_cons, plain_end, plain_field,
}
use sems_yeti.ArgConversion.Escape.{HexBack, text_length, arg2username_back}

abbrev hex_digit : ℕ → ℕ
hex_digit d = if ltb d 10 then d + 48 else d + 87

abbrev char2hex : ℕ → Text
char2hex c = hex_digit (c / 16) ∷ hex_digit (c % 16) ∷ []

abbrev from_digit : ℕ → ℕ
from_digit d = if ltb d 97 then d - 48 else d - 87

abbrev reverse_hex2int : Text → Option ℕ
reverse_hex2int (l ∷ h ∷ []) = some (16 * from_digit h + from_digit l)
reverse_hex2int t = none

from_digit-hex_digit : (d : ℕ) → d < 16 → from_digit (hex_digit d) ≡ d
from_digit-hex_digit d h = ground arith

hex_back : HexBack char2hex reverse_hex2int
hex_back c small =
    let high = from_digit-hex_digit (c / 16) (omega arith) in
    let low = from_digit-hex_digit (c % 16) (omega arith) in
    (
      hex_digit (c / 16),
      hex_digit (c % 16),
      refl,
      ap some (
          ap (λ h. 16 * h + from_digit (hex_digit (c % 16))) high
          ∙ ap (λ l. 16 * (c / 16) + l) low
          ∙ omega arith),
    )

abbrev call : Arg
call = struct (
    field (codes "a") (cstr (codes "b c"))
      (field (codes "d") (array (cons (cstr (codes "é")) nil)) end))

call_written :
    arg2string (struct (field (codes "a") (cstr (codes "b c")) end)) ≡ some (codes "x1/1/as3/b c")
unfolding arg2string digits field_count
call_written = refl

call-IsPlain : IsPlain call
unfolding text_lt field_count size
call-IsPlain = plain_struct (omega arith) (
    plain_field (omega arith) (omega arith, tt) ((refl, tt))
      (plain_cstr (omega arith) (omega arith, (omega arith, (omega arith, tt))))
      (plain_field (omega arith) (omega arith, tt) tt
        (plain_array (omega arith)
          (plain_cons (plain_cstr (omega arith) (omega arith, tt)) plain_nil))
        plain_end))

call_short : text_length (arg2string call) < 2 ^ 31
unfolding arg2string digits field_count size
call_short = omega arith

within_int_test : within_int (codes "s1/a") ≡ codes "s1/a"
within_int_test = refl

arg2username_back_example :
    (u : Text) × (arg2username char2hex reverse_hex2int call ≡ some u)
    × (username2arg char2hex reverse_hex2int u ≡ ok call)
arg2username_back_example =
    arg2username_back char2hex reverse_hex2int hex_back call call-IsPlain call_short
