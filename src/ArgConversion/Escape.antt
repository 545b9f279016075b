-- ===== src/ArgConversion/Escape.antt =====
-- What `arg2username` writes, `username2arg` reads back.
use mathlib.Core.List.{append-nil}
use mathlib.Core.Path.{subst}
use sems_yeti.Prelude.{
  ℕ, zero, suc, ◌+◌, ◌%◌, ◌/◌, ◌^◌, ◌<◌, ◌≤◌, none, take-length_self, ◌≡◌, ◌≢◌, refl, sym, ap, ◌∙◌,
  inl, inr, true, false, Option, some, [], ◌∷◌, ◌++◌, arith, ◌==◌, length, Bool-cases,
}
use sems_yeti.Prelude.Classes.{Text, codes}
use sems_yeti.ArgConversion.{
  Arg, Args, Fields, digits, decimal, sized, size, field_count, map_text, map_ok, arg2string,
  args2string, fields2string, ok, string2arg, is_allowed, escape, arg2username, unescape,
  username2arg, within_int, fail,
}
use sems_yeti.ArgConversion.Plain.{
  AllBytes, IsPlain, plain_cstr, plain_array, plain_struct, ArePlain, plain_nil, plain_cons,
  FieldsPlain, plain_end, plain_field,
}
use sems_yeti.ArgConversion.RoundTrip.{string2arg_back}

append-AllBytes : (s t : Text) → AllBytes s → AllBytes t → AllBytes (s ++ t)
append-AllBytes [] t h k = k
append-AllBytes (c ∷ s) t h k = (h.0, append-AllBytes s t h.1 k)

digits-AllBytes : (k n : ℕ) (acc : Text) → AllBytes acc → AllBytes (digits k n acc)
unfolding digits
digits-AllBytes zero n acc h = h
digits-AllBytes (suc k) n acc h = elim (Bool-cases (n / 10 == 0)) [
  | inl e ↦ rw e (omega arith, h)
  | inr e ↦ rw e (digits-AllBytes k (n / 10) ((b'0' + n % 10) ∷ acc) (omega arith, h))
]

prefix-AllBytes : (n : ℕ) → AllBytes (decimal n ++ codes "/")
prefix-AllBytes n =
    append-AllBytes (decimal n) (codes "/") (digits-AllBytes (suc n) n [] tt) (omega arith, tt)

-- `arg2string` writes bytes, and does not throw.
mutual
  unfolding arg2string

  arg2string-AllBytes : {a : Arg} → IsPlain a → (t : Text) × (arg2string a ≡ some t) × AllBytes t
  arg2string-AllBytes (plain_cstr {p} small bytes) = (
    sized b's' (length p) ++ p,
    refl,
    (
      omega arith,
      append-AllBytes (decimal (length p) ++ codes "/") p (prefix-AllBytes (length p)) bytes,
    ),
  )
  arg2string-AllBytes (plain_array {xs} small ps) =
      let (t, e, bytes) = args2string-AllBytes ps in
      (
        sized b'a' (size xs) ++ t,
        ap (map_text (λ t. sized b'a' (size xs) ++ t)) e,
        (
          omega arith,
          append-AllBytes (decimal (size xs) ++ codes "/") t (prefix-AllBytes (size xs)) bytes,
        ),
      )
  arg2string-AllBytes (plain_struct {fs} small ps) =
      let (t, e, bytes) = fields2string-AllBytes ps in
      (
        sized b'x' (field_count fs) ++ t,
        ap (map_text (λ t. sized b'x' (field_count fs) ++ t)) e,
        (
          omega arith,
          append-AllBytes (decimal (field_count fs) ++ codes "/") t
              (prefix-AllBytes (field_count fs)) bytes,
        ),
      )

  args2string-AllBytes :
      {xs : Args} → ArePlain xs → (t : Text) × (args2string xs ≡ some t) × AllBytes t
  args2string-AllBytes plain_nil = ([], refl, tt)
  args2string-AllBytes (plain_cons px ps) =
      let (s, e, bytes) = arg2string-AllBytes px in
      let (t, e', bytes') = args2string-AllBytes ps in
      (s ++ t, rw (e, e') refl, append-AllBytes s t bytes bytes')

  fields2string-AllBytes :
      {fs : Fields} → FieldsPlain fs → (t : Text) × (fields2string fs ≡ some t) × AllBytes t
  fields2string-AllBytes plain_end = ([], refl, tt)
  fields2string-AllBytes (plain_field {k} small key above pv ps) =
      let (s, e, bytes) = arg2string-AllBytes pv in
      let (t, e', bytes') = fields2string-AllBytes ps in
      (
        (decimal (length k) ++ codes "/") ++ (k ++ (s ++ t)),
        rw (e, e') refl,
        append-AllBytes (decimal (length k) ++ codes "/") (k ++ (s ++ t))
            (prefix-AllBytes (length k))
            (append-AllBytes k (s ++ t) key (append-AllBytes s t bytes bytes')),
      )

string2arg_all :
    {a : Arg} {t : Text}
    → IsPlain a
    → arg2string a ≡ some t
    → string2arg (suc (length t)) t ≡ ok (a, [])
string2arg_all {t} plain e =
    ap (string2arg (suc (length t))) (sym (append-nil t))
    ∙ string2arg_back plain e [] (suc (length t)) (omega arith)

-- The length of what `arg2string` writes.
abbrev pub text_length : Option Text → ℕ
text_length none = 0
text_length (some t) = length t

within_int_short : (t : Text) → length t < 2 ^ 31 → within_int t ≡ t
within_int_short t h = ground (arith, take-length_self t)

within_int_long : (t : Text) → 2 ^ 31 ≤ length t → length t < 2 ^ 32 → within_int t ≡ []
within_int_long t h k = ground arith

module _ (char2hex : ℕ → Text) (reverse_hex2int : Text → Option ℕ) where
  -- Two digits stand for a byte, and are read with the second one first.
  abbrev pub HexBack : Type 0
  HexBack =
      (c : ℕ)
      → c < 256
      → (h : ℕ) × (l : ℕ) × (char2hex c ≡ h ∷ l ∷ []) × (reverse_hex2int (l ∷ h ∷ []) ≡ some c)

  unescape-cons :
      (c : ℕ) (t : Text)
      → (c == b'?') ≡ false
      → unescape char2hex reverse_hex2int (c ∷ t)
        ≡ map_text (◌∷◌ c) (unescape char2hex reverse_hex2int t)
  unfolding unescape
  unescape-cons c [] e = rw e refl
  unescape-cons c (a ∷ []) e = rw e refl
  unescape-cons c (a ∷ b ∷ t) e = rw (e, unescape) refl

  not_allowed : (c : ℕ) → c ≡ b'?' → is_allowed c ≢ true
  unfolding is_allowed
  not_allowed c e h = absurd (cc (h, ap is_allowed e))

  allowed_not_escape : (c : ℕ) → is_allowed c ≡ true → (c == b'?') ≡ false
  unfolding is_allowed
  allowed_not_escape c h = elim (Bool-cases (c == b'?')) [
    | inr e ↦ e
    | inl e ↦ absurd (not_allowed c (ground (arith, e)) h)
  ]

  unescape-escape :
      HexBack
      → (t : Text) → AllBytes t
      → unescape char2hex reverse_hex2int (escape char2hex reverse_hex2int t) ≡ some t
  unfolding escape unescape
  unescape-escape hex [] bytes = refl
  unescape-escape hex (c ∷ t) bytes =
      let ih = unescape-escape hex t bytes.1 in
      elim (Bool-cases (is_allowed c)) [
        | inl e ↦ rw e (
            unescape-cons c (escape char2hex reverse_hex2int t) (allowed_not_escape c e)
            ∙ ap (map_text (◌∷◌ c)) ih)
        | inr e ↦
            let (h, l, written, read) = hex c bytes.0 in
            let same : c % 256 ≡ c = omega (arith, bytes.0) in rw (e, written, read, ih, same) refl
      ]

  -- A value of texts, arrays and structs of bytes, with lengths below 2 ^ 31 and the keys of each
  -- struct in order, whose text before the escapes is shorter than 2 ^ 31 as well: `arg2username` does not
  -- throw, and from what it writes `username2arg` reads the same value, where `reverse_hex2int` reads
  -- back, second digit first, the two digits that `char2hex` writes for a byte.
  pub arg2username_back :
      HexBack
      → (a : Arg) → IsPlain a
      → text_length (arg2string a) < 2 ^ 31
      → (u : Text) × (arg2username char2hex reverse_hex2int a ≡ some u)
        × (username2arg char2hex reverse_hex2int u ≡ ok a)
  unfolding arg2username username2arg
  arg2username_back hex a plain small =
      let (t, written, bytes) = arg2string-AllBytes plain in
      let fits : length t < 2 ^ 31 = subst (λ o. text_length o < 2 ^ 31) written small in
      (
        escape char2hex reverse_hex2int t,
        ap (map_text (escape char2hex reverse_hex2int)) written,
        rw (unescape-escape hex t bytes, username2arg, within_int_short t fits)
            (ap (map_ok (λ (a, rest). a)) (string2arg_all plain written)),
      )

  -- What has a size from 2 ^ 31 to below 2 ^ 32 is refused, since its size is read as a negative number:
  -- so is what `arg2username` writes for a value with a text of that size before the escapes.
  arg2username_too_long :
      HexBack
      → (a : Arg) → IsPlain a
      → 2 ^ 31 ≤ text_length (arg2string a)
      → text_length (arg2string a) < 2 ^ 32
      → (u : Text) × (arg2username char2hex reverse_hex2int a ≡ some u)
        × (username2arg char2hex reverse_hex2int u ≡ fail)
  unfolding arg2username username2arg string2arg
  arg2username_too_long hex a plain large small =
      let (t, written, bytes) = arg2string-AllBytes plain in
      let above : 2 ^ 31 ≤ length t = subst (λ o. 2 ^ 31 ≤ text_length o) written large in
      let below : length t < 2 ^ 32 = subst (λ o. text_length o < 2 ^ 32) written small in
      (
        escape char2hex reverse_hex2int t,
        ap (map_text (escape char2hex reverse_hex2int)) written,
        rw (unescape-escape hex t bytes, username2arg, within_int_long t above below) refl,
      )
