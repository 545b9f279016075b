-- ===== src/ArgConversion/Plain.antt =====
-- The values that a user part carries back and forth, and what their parts are written as.
use mathlib.Core.List.{append_assoc}
use sems_yeti.Prelude.{
  ℕ, ◌^◌, ◌<◌, ◌≡◌, refl, ap, true, false, Option, none, some, [], ◌∷◌, ◌++◌, arith, leb, length,
  length-append, take-length_append, drop-length_append,
}
use sems_yeti.Prelude.Classes.{Text, codes, text_eq}
use sems_yeti.ArgConversion.Numbers.{read_len-decimal}
use sems_yeti.ArgConversion.{
  Arg, Args, Fields, cstr, array, struct, nil, cons, end, field, decimal, sized, size, field_count,
  map_text, join, ok, read_string, read_bytes, is_negative, text_lt, insert,
}

-- Every key of the fields lies behind `k`.
abbrev pub KeysAbove : Text → Fields → Type 0
KeysAbove k end = Unit {0}
KeysAbove k (field j v fs) = (text_lt k j ≡ true) × KeysAbove k fs

abbrev pub AllBytes : Text → Type 0
AllBytes [] = Unit {0}
AllBytes (c ∷ t) = (c < 256) × AllBytes t

-- Texts, arrays and structs of bytes, with fewer than 2 ^ 31 bytes, items and fields, and the keys of a struct
-- in order.
mutual
  pub data IsPlain : Arg → Type 0 where
    plain_cstr : {p : Text} → length p < 2 ^ 31 → AllBytes p → IsPlain (cstr p)
    plain_array : {xs : Args} → size xs < 2 ^ 31 → ArePlain xs → IsPlain (array xs)
    plain_struct : {fs : Fields} → field_count fs < 2 ^ 31 → FieldsPlain fs → IsPlain (struct fs)

  pub data ArePlain : Args → Type 0 where
    plain_nil : ArePlain nil
    plain_cons : {x : Arg} {xs : Args} → IsPlain x → ArePlain xs → ArePlain (cons x xs)

  pub data FieldsPlain : Fields → Type 0 where
    plain_end : FieldsPlain end
    plain_field :
        {k : Text} {v : Arg} {fs : Fields}
        → length k < 2 ^ 31
        → AllBytes k
        → KeysAbove k fs
        → IsPlain v
        → FieldsPlain fs
        → FieldsPlain (field k v fs)

pub join-some :
    (o p : Option Text) {t : Text}
    → join o p ≡ some t
    → (s : Text) × (u : Text) × (o ≡ some s) × (p ≡ some u) × (t ≡ s ++ u)
join-some none p h = cc
join-some (some s) none h = cc
join-some (some s) (some u) h = (s, u, refl, refl, ground arith)

pub map_text-some :
    (f : Text → Text) (o : Option Text) {t : Text}
    → map_text f o ≡ some t
    → (s : Text) × (o ≡ some s) × (t ≡ f s)
map_text-some f none h = cc
map_text-some f (some s) h = (s, refl, ground arith)

read_bytes_back :
    (k rest : Text) → length k < 2 ^ 31 → read_bytes (length k) (k ++ rest) ≡ ok (k, rest)
read_bytes_back k rest h =
    let positive : is_negative (length k) ≡ false = ground arith in
    let there : leb (length k) (length (k ++ rest)) ≡ true = ground (arith, length-append k rest) in
    rw (positive, there, take-length_append k rest, drop-length_append k rest) refl

pub read_string_back :
    (k rest : Text)
    → length k < 2 ^ 31
    → read_string ((decimal (length k) ++ codes "/") ++ (k ++ rest)) ≡ ok (k, rest)
unfolding read_string
read_string_back k rest h =
    rw (read_len-decimal (length k) (k ++ rest) (omega arith), read_string)
      (read_bytes_back k rest h)

text_lt_irrefl : (s t : Text) → text_lt s t ≡ true → (text_eq t s ≡ false) × (text_lt t s ≡ false)
unfolding text_lt
text_lt_irrefl s [] h = cc
text_lt_irrefl [] (b ∷ t) h = (refl, refl)
text_lt_irrefl (a ∷ s) (b ∷ t) h = ground (arith, text_lt_irrefl s t)

abbrev pub append : Fields → Fields → Fields
append end gs = gs
append (field k v fs) gs = field k v (append fs gs)

-- Every key of the first fields lies before every key of the second.
abbrev pub Before : Fields → Fields → Type 0
Before end gs = Unit {0}
Before (field k v fs) gs = KeysAbove k gs × Before fs gs

-- A key behind all others goes to the end.
pub insert_last :
    (s : Text) (v : Arg) (fs gs : Fields)
    → Before fs (field s v gs)
    → insert s v fs ≡ append fs (field s v end)
unfolding insert
insert_last s v end gs b = refl
insert_last s v (field k w fs) gs b =
    let o = text_lt_irrefl k s b.0.0 in rw (o.0, o.1, insert_last s v fs gs b.1)

-- Behind a label and a length.
pub sized-append :
    (label n : ℕ) (t rest : Text)
    → (sized label n ++ t) ++ rest ≡ label ∷ ((decimal n ++ codes "/") ++ (t ++ rest))
sized-append label n t rest = ap (◌∷◌ label) (append_assoc (decimal n ++ codes "/") t rest)

pub Before-snoc :
    (fs : Fields) (k : Text) (v : Arg) (gs : Fields)
    → Before fs (field k v gs)
    → KeysAbove k gs
    → Before (append fs (field k v end)) gs
Before-snoc end k v gs b a = (a, tt)
Before-snoc (field j w fs) k v gs b a = (b.0.1, Before-snoc fs k v gs b.1 a)

pub append-snoc :
    (fs : Fields) (k : Text) (v : Arg) (gs : Fields)
    → append (append fs (field k v end)) gs ≡ append fs (field k v gs)
append-snoc end k v gs = refl
append-snoc (field j w fs) k v gs = ap (field j w) (append-snoc fs k v gs)

pub append-end : (fs : Fields) → append fs end ≡ fs
append-end end = refl
append-end (field k v fs) = ap (field k v) (append-end fs)
