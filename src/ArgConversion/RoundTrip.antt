-- ===== src/ArgConversion/RoundTrip.antt =====
-- What `arg2string` writes, `string2arg` reads back.
use mathlib.Core.List.{append_assoc}
use mathlib.Core.Path.{subst}
use sems_yeti.Prelude.{
  ℕ, suc, ◌+◌, ◌-◌, ◌^◌, ◌<◌, ◌≡◌, refl, sym, ap, ◌∙◌, some, ◌++◌, arith, length, length-append,
}
use sems_yeti.Prelude.Classes.{Text, codes}
use sems_yeti.ArgConversion.Numbers.{read_len-decimal}
use sems_yeti.ArgConversion.{
  Arg, Args, Fields, cstr, array, struct, nil, cons, end, field, decimal, sized, size, field_count,
  join, arg2string, args2string, fields2string, ok, rounds, read_items, read_fields, read_value,
  string2arg,
}
use sems_yeti.ArgConversion.Plain.{
  IsPlain, plain_cstr, plain_array, plain_struct, ArePlain, plain_nil, plain_cons, FieldsPlain,
  plain_end, plain_field, join-some, map_text-some, read_string_back, append, Before, insert_last,
  sized-append, Before-snoc, append-snoc, append-end,
}

rounds_small : (n : ℕ) → n < 2 ^ 31 → rounds n ≡ n
rounds_small n h = ground arith

cstr_back :
    (s rest : Text) (fuel : ℕ)
    → length s < 2 ^ 31
    → string2arg (suc fuel) ((sized b's' (length s) ++ s) ++ rest) ≡ ok (cstr s, rest)
unfolding string2arg
cstr_back s rest fuel small =
    ap (string2arg (suc fuel)) (sized-append b's' (length s) s rest)
    ∙ rw (read_string_back s rest small, read_value) refl

array_back :
    (xs : Args) (t rest : Text) (fuel : ℕ)
    → size xs < 2 ^ 31
    → read_items (string2arg fuel) (size xs) (t ++ rest) ≡ ok (xs, rest)
    → string2arg (suc fuel) ((sized b'a' (size xs) ++ t) ++ rest) ≡ ok (array xs, rest)
unfolding string2arg
array_back xs t rest fuel small back =
    ap (string2arg (suc fuel)) (sized-append b'a' (size xs) t rest)
    ∙ rw
        (
          read_len-decimal (size xs) (t ++ rest) (omega arith),
          read_value,
          rounds_small (size xs) small,
          back,
        )
        refl

struct_back :
    (fs : Fields) (t rest : Text) (fuel : ℕ)
    → field_count fs < 2 ^ 31
    → read_fields (string2arg fuel) (field_count fs) (t ++ rest) end ≡ ok (fs, rest)
    → string2arg (suc fuel) ((sized b'x' (field_count fs) ++ t) ++ rest) ≡ ok (struct fs, rest)
unfolding string2arg
struct_back fs t rest fuel small back =
    ap (string2arg (suc fuel)) (sized-append b'x' (field_count fs) t rest)
    ∙ rw
        (
          read_len-decimal (field_count fs) (t ++ rest) (omega arith),
          read_value,
          rounds_small (field_count fs) small,
          back,
        )
        refl

cons_back :
    (x : Arg) (xs : Args) (s u rest : Text) (fuel : ℕ)
    → string2arg fuel (s ++ (u ++ rest)) ≡ ok (x, u ++ rest)
    → read_items (string2arg fuel) (size xs) (u ++ rest) ≡ ok (xs, rest)
    → read_items (string2arg fuel) (size (cons x xs)) ((s ++ u) ++ rest) ≡ ok (cons x xs, rest)
unfolding read_items size
cons_back x xs s u rest fuel one more = rw (append_assoc s u rest, one, read_items, more) refl

field_back :
    (k : Text) (v : Arg) (fs acc : Fields) (s u rest : Text) (fuel : ℕ)
    → length k < 2 ^ 31
    → Before acc (field k v fs)
    → string2arg fuel (s ++ (u ++ rest)) ≡ ok (v, u ++ rest)
    → read_fields (string2arg fuel) (field_count fs) (u ++ rest) (append acc (field k v end))
      ≡ ok (append (append acc (field k v end)) fs, rest)
    → read_fields
        (string2arg fuel)
        (field_count (field k v fs))
        (((decimal (length k) ++ codes "/") ++ (k ++ (s ++ u))) ++ rest)
        acc
      ≡ ok (append acc (field k v fs), rest)
unfolding read_fields field_count
field_back k v fs acc s u rest fuel small before one more =
    let len = decimal (length k) ++ codes "/" in
    let e : (len ++ (k ++ (s ++ u))) ++ rest ≡ len ++ (k ++ (s ++ (u ++ rest))) =
      simp append_assoc in
    ap (λ t. read_fields (string2arg fuel) (suc (field_count fs)) t acc) e
    ∙ (rw
          (
            read_string_back k (s ++ (u ++ rest)) small,
            read_fields,
            one,
            insert_last k v acc fs before,
          )
          more
        ∙ ap (λ fs'. ok (fs', rest)) (append-snoc acc k v fs))

suc_of_pos : (n m : ℕ) → n < m → m ≡ suc (m - 1)
suc_of_pos n m h = omega arith

inside_fuel :
    (len k s u : Text) (fuel : ℕ)
    → length (len ++ (k ++ (s ++ u))) < fuel
    → length s + length u < fuel
inside_fuel len k s u fuel h =
    omega (arith, length-append len (k ++ (s ++ u)), length-append k (s ++ u), length-append s u)

some-inj : {s t : Text} → some s ≡ some t → s ≡ t
some-inj e = cc

-- What is behind a label and a length leaves fuel for one more call.
sized-fuel :
    (label n fuel : ℕ) (s : Text) → length (sized label n ++ s) < fuel → length s < fuel - 1
sized-fuel label n fuel s h = omega (arith, length-append (decimal n ++ codes "/") s)

-- With more fuel than was written, what `arg2string` wrote in front of `rest` is read.
mutual
  unfolding arg2string read_items read_fields size field_count

  pub string2arg_back :
      {a : Arg} {t : Text}
      → IsPlain a
      → arg2string a ≡ some t
      → (rest : Text) (fuel : ℕ) → length t < fuel
      → string2arg fuel (t ++ rest) ≡ ok (a, rest)
  string2arg_back {t} (plain_cstr {p} small _) e rest fuel h =
      ap (λ n. string2arg n (t ++ rest)) (suc_of_pos (length t) fuel h)
      ∙ ap (λ t. string2arg (suc (fuel - 1)) (t ++ rest)) (sym (some-inj e))
      ∙ cstr_back p rest (fuel - 1) small
  string2arg_back {t} (plain_array {xs} small ps) e rest fuel h =
      let (s, written, whole) = map_text-some (λ t. sized b'a' (size xs) ++ t) (args2string xs) e in
      let items =
        read_items_back ps written rest (fuel - 1)
          (sized-fuel b'a' (size xs) fuel s (subst (λ t. length t < fuel) whole h)) in
      ap (λ n. string2arg n (t ++ rest)) (suc_of_pos (length t) fuel h)
      ∙ ap (λ t. string2arg (suc (fuel - 1)) (t ++ rest)) whole
      ∙ array_back xs s rest (fuel - 1) small items
  string2arg_back {t} (plain_struct {fs} small ps) e rest fuel h =
      let (s, written, whole) =
        map_text-some (λ t. sized b'x' (field_count fs) ++ t) (fields2string fs) e in
      let fields =
        read_fields_back ps written end rest (fuel - 1) tt
          (sized-fuel b'x' (field_count fs) fuel s (subst (λ t. length t < fuel) whole h)) in
      ap (λ n. string2arg n (t ++ rest)) (suc_of_pos (length t) fuel h)
      ∙ ap (λ t. string2arg (suc (fuel - 1)) (t ++ rest)) whole
      ∙ struct_back fs s rest (fuel - 1) small fields

  read_items_back :
      {xs : Args} {t : Text}
      → ArePlain xs
      → args2string xs ≡ some t
      → (rest : Text) (fuel : ℕ) → length t < fuel
      → read_items (string2arg fuel) (size xs) (t ++ rest) ≡ ok (xs, rest)
  read_items_back plain_nil e rest fuel h = ap (λ t. ok (nil, t ++ rest)) (sym (some-inj e))
  read_items_back {t} (plain_cons {x} {xs} px ps) e rest fuel h =
      let (s, u, first, others, whole) = join-some (arg2string x) (args2string xs) e in
      let room : length s + length u < fuel =
        subst (λ n. n < fuel) (ap length whole ∙ length-append s u) h in
      ap (λ t. read_items (string2arg fuel) (suc (size xs)) (t ++ rest)) whole
      ∙ cons_back x xs s u rest fuel (string2arg_back px first (u ++ rest) fuel (omega arith))
          (read_items_back ps others rest fuel (omega arith))

  read_fields_back :
      {fs : Fields} {t : Text}
      → FieldsPlain fs
      → fields2string fs ≡ some t
      → (acc : Fields) (rest : Text) (fuel : ℕ) → Before acc fs
      → length t < fuel
      → read_fields (string2arg fuel) (field_count fs) (t ++ rest) acc ≡ ok (append acc fs, rest)
  read_fields_back plain_end e acc rest fuel b h =
      ap (λ t. read_fields (string2arg fuel) 0 (t ++ rest) acc) (sym (some-inj e))
      ∙ ap (λ fs. ok (fs, rest)) (sym (append-end acc))
  read_fields_back {t} (plain_field {k} {v} {fs} small _ above pv ps) e acc rest fuel b h =
      let len = decimal (length k) ++ codes "/" in
      let (w, written, whole) =
        map_text-some (λ t. len ++ (k ++ t)) (join (arg2string v) (fields2string fs)) e in
      let (s, u, first, others, both) = join-some (arg2string v) (fields2string fs) written in
      let t_is : t ≡ len ++ (k ++ (s ++ u)) = whole ∙ ap (λ t. len ++ (k ++ t)) both in
      let room : length s + length u < fuel =
        inside_fuel len k s u fuel (subst (λ t. length t < fuel) t_is h) in
      ap (λ t. read_fields (string2arg fuel) (suc (field_count fs)) (t ++ rest) acc) t_is
      ∙ field_back k v fs acc s u rest fuel small b
          (string2arg_back pv first (u ++ rest) fuel (omega arith))
          (read_fields_back ps others (append acc (field k v end)) rest fuel
            (Before-snoc acc k v fs b above) (omega arith))
