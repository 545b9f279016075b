-- ===== src/ArgConversion.antt =====
-- src/arg_conversion.cpp: an AmArg as the user part of a SIP URI, and back. Lengths are written in
-- decimal before what they count; bytes outside of an allowed set are escaped.
mod Tests
pub mod Numbers
pub mod Plain
pub mod RoundTrip
pub mod Escape
use sems_yeti.Prelude.{
  ℕ, zero, suc, ◌+◌, ◌-◌, ◌*◌, ◌/◌, ◌%◌, ◌^◌, Bool, true, false, ◌&&◌, ◌||◌, Option, none, some,
  List, [], ◌∷◌, ◌++◌, if◌then◌else◌, ltb, leb, ◌==◌, length, take, drop,
}
use sems_yeti.Prelude.Words.{u32}
use sems_yeti.Prelude.Classes.{Text, codes, text_eq}

-- AmArg: texts, arrays and structs; `other` is a value of any other type. A struct is a std::map, in the
-- order of its keys.
mutual
  pub data Arg : Type 0 where
    cstr : Text → Arg
    array : Args → Arg
    struct : Fields → Arg
    other : Arg

  pub data Args : Type 0 where
    nil : Args
    cons : Arg → Args → Args

  pub data Fields : Type 0 where
    end : Fields
    field : Text → Arg → Fields → Fields

-- "%zd", with more rounds than there are digits.
unfoldable pub digits : ℕ → ℕ → Text → Text
digits zero n acc = acc
digits (suc rounds) n acc =
    let acc' = (b'0' + n % 10) ∷ acc in
    let rest = digits rounds (n / 10) acc' in if n / 10 == 0 then acc' else rest

abbrev pub decimal : ℕ → Text
decimal n = digits (suc n) n []

abbrev pub sized : ℕ → ℕ → Text
sized label n = label ∷ decimal n ++ codes "/"

unfoldable pub size : Args → ℕ
size nil = 0
size (cons x xs) = suc (size xs)

unfoldable pub field_count : Fields → ℕ
field_count end = 0
field_count (field k v fs) = suc (field_count fs)

abbrev pub map_text : (Text → Text) → Option Text → Option Text
map_text f none = none
map_text f (some t) = some (f t)

abbrev pub join : Option Text → Option Text → Option Text
join none t = none
join (some s) none = none
join (some s) (some t) = some (s ++ t)

-- `arg2string`; `none` is its exception.
unfoldable mutual
  pub arg2string : Arg → Option Text
  arg2string (cstr p) = some (sized b's' (length p) ++ p)
  arg2string (array xs) = map_text (λ t. sized b'a' (size xs) ++ t) (args2string xs)
  arg2string (struct fs) = map_text (λ t. sized b'x' (field_count fs) ++ t) (fields2string fs)
  arg2string other = none

  pub args2string : Args → Option Text
  args2string nil = some []
  args2string (cons x xs) = join (arg2string x) (args2string xs)

  pub fields2string : Fields → Option Text
  fields2string end = some []
  fields2string (field k v fs) =
      map_text (λ t. (decimal (length k) ++ codes "/") ++ (k ++ t))
        (join (arg2string v) (fields2string fs))

abbrev pub is_digit : ℕ → Bool
is_digit c = leb b'0' c && leb c b'9'

-- The loop of `read_len`. `dst` is an `int`, kept as its 32-bit pattern; overflow wraps around here.
unfoldable pub read_digits : ℕ → ℕ → Text → Option (ℕ × Text)
read_digits count dst [] = none
read_digits count dst (c ∷ src) =
    let rest = read_digits (suc count) ((10 * dst + (c - b'0')) % u32) src in
    if is_digit c
    then rest
    else (if c == b'/' then (if count == 0 then none else some (dst, src)) else none)

abbrev pub read_len : Text → Option (ℕ × Text)
read_len src = read_digits 0 0 src

-- `fail` is the result false; `threw` an exception of the standard library; `no_fuel` is of the model.
pub data Outcome (A : Type 0) : Type 0 where
  ok : A → Outcome A
  fail threw no_fuel : Outcome A

-- A pattern from 2 ^ 31 on is a negative number.
abbrev pub is_negative : ℕ → Bool
is_negative l = leb (2 ^ 31) l

-- A negative length is at most `len`, and `assign` refuses it.
abbrev pub read_bytes : ℕ → Text → Outcome (Text × Text)
read_bytes l src =
    if is_negative l
    then threw
    else (if leb l (length src) then ok (take l src, drop l src) else fail)

unfoldable pub read_string : Text → Outcome (Text × Text)
read_string src = elim (read_len src) [ none ↦ fail | some (l, rest) ↦ read_bytes l rest ]

-- The order of std::string.
unfoldable pub text_lt : Text → Text → Bool
text_lt s [] = false
text_lt [] (b ∷ t) = true
text_lt (a ∷ s) (b ∷ t) = if a == b then text_lt s t else ltb a b

-- `dst[s] = v`
unfoldable pub insert : Text → Arg → Fields → Fields
insert s v end = field s v end
insert s v (field k w fs) =
    let rest = insert s v fs in
    if text_eq s k
    then field k v fs
    else (if text_lt s k then field s v (field k w fs) else field k w rest)

-- The number of rounds of `for (i = 0; i < cnt; i++)`.
abbrev pub rounds : ℕ → ℕ
rounds cnt = if is_negative cnt then 0 else cnt

-- The loop over an array, with the reader of one value.
unfoldable pub read_items : (Text → Outcome (Arg × Text)) → ℕ → Text → Outcome (Args × Text)
read_items read zero src = ok (nil, src)
read_items read (suc n) src = elim (read src) [
  | fail ↦ fail
  | threw ↦ threw
  | no_fuel ↦ no_fuel
  | ok (x, rest) ↦ elim (read_items read n rest) [
    | fail ↦ fail
    | threw ↦ threw
    | no_fuel ↦ no_fuel
    | ok (xs, rest') ↦ ok (cons x xs, rest')
  ]
]

-- The loop over a struct.
unfoldable pub read_fields :
    (Text → Outcome (Arg × Text)) → ℕ → Text → Fields → Outcome (Fields × Text)
read_fields read zero src dst = ok (dst, src)
read_fields read (suc n) src dst = elim (read_string src) [
  | fail ↦ fail
  | threw ↦ threw
  | no_fuel ↦ no_fuel
  | ok (s, rest) ↦ elim (read rest) [
    | fail ↦ fail
    | threw ↦ threw
    | no_fuel ↦ no_fuel
    | ok (v, rest') ↦ read_fields read n rest' (insert s v dst)
  ]
]

abbrev pub map_ok : {A B : Type 0} → (A → B) → Outcome A → Outcome B
map_ok f (ok a) = ok (f a)
map_ok f fail = fail
map_ok f threw = threw
map_ok f no_fuel = no_fuel

-- `string2arg` after its label. `read` is the call of itself.
abbrev pub read_value : (Text → Outcome (Arg × Text)) → ℕ → Text → Outcome (Arg × Text)
read_value read label src =
    if label == b's'
    then map_ok (λ (s, rest). (cstr s, rest)) (read_string src)
    else (if label == b'a'
        then elim (read_len src) [
          | none ↦ fail
          | some (cnt, rest) ↦
              map_ok (λ (xs, rest'). (array xs, rest')) (read_items read (rounds cnt) rest)
        ]
        else (if label == b'x'
            then elim (read_len src) [
              | none ↦ fail
              | some (cnt, rest) ↦
                  map_ok (λ (fs, rest'). (struct fs, rest'))
                    (read_fields read (rounds cnt) rest end)
            ]
            else fail))

-- The text is what `src` points at, as far as `len`, which is no negative number then: the empty one stands
-- for a `len` below 1. Every call of itself has less to read, so more fuel than bytes is enough.
unfoldable pub string2arg : ℕ → Text → Outcome (Arg × Text)
unfolding read_string read_items read_fields insert
string2arg zero src = no_fuel
string2arg (suc fuel) [] = fail
string2arg (suc fuel) (label ∷ src) = read_value (string2arg fuel) label src

abbrev pub allowed : Text
allowed = codes "abcdefghijklmnopqrstuvwxyzABCDEFGHIJKLMNOPQRSTUVWXYZ0123456789-_.!~*'&=+$,;/"

abbrev pub contains : Text → ℕ → Bool
contains [] c = false
contains (b ∷ t) c = b == c || contains t c

-- `strchr(allowed, c)`, which also finds the byte 0 at the end.
unfoldable pub is_allowed : ℕ → Bool
is_allowed c = contains allowed c || c == 0

-- `int len = encoded.size()`: what the reader may look at. A negative length is below 1, like that of an
-- empty text, and a size from 2 ^ 32 on is cut down to its low bits.
abbrev pub within_int : Text → Text
within_int encoded =
    let len = length encoded % u32 in if is_negative len then [] else take len encoded

-- `char2hex` and `reverse_hex2int` are of the SEMS core; `none` is the latter's error.
module _ (char2hex : ℕ → Text) (reverse_hex2int : Text → Option ℕ) where
  unfoldable pub escape : Text → Text
  escape [] = []
  escape (c ∷ t) =
      let rest = escape t in if is_allowed c then c ∷ rest else b'?' ∷ char2hex c ++ rest

  unfoldable pub arg2username : Arg → Option Text
  arg2username a = map_text escape (arg2string a)

  -- The loop of `username2arg`: in place, from one escape to the next.
  unfoldable pub unescape : Text → Option Text
  unescape [] = some []
  unescape (c ∷ []) = if c == b'?' then none else some (c ∷ [])
  unescape (c ∷ a ∷ []) = if c == b'?' then none else map_text (◌∷◌ c) (unescape (a ∷ []))
  unescape (c ∷ a ∷ b ∷ rest) = elim (c == b'?') [
    | false ↦ map_text (◌∷◌ c) (unescape (a ∷ b ∷ rest))
    | true ↦ elim (reverse_hex2int (b ∷ a ∷ [])) [
      | none ↦ none
      | some n ↦ map_text (◌∷◌ (n % 256)) (unescape rest)
    ]
  ]

  unfoldable pub username2arg : Text → Outcome Arg
  username2arg src = elim (unescape src) [
    | none ↦ fail
    | some encoded ↦
        map_ok (λ (a, rest). a)
          (string2arg (suc (length (within_int encoded))) (within_int encoded))
  ]
