-- ===== src/ArgConversion/Numbers.antt =====
-- Decimal lengths: what `%zd/` prints, `read_len` reads.
use sems_yeti.Prelude.{
  ℕ, zero, suc, ◌+◌, ◌-◌, ◌*◌, ◌/◌, ◌%◌, ◌≤◌, ◌<◌, ◌≡◌, ap, ◌∙◌, inl, inr, true, some, [], ◌∷◌,
  ◌++◌, arith, ◌==◌, length, Bool-cases,
}
use sems_yeti.Prelude.Words.{u32}
use sems_yeti.Prelude.Classes.{Text, codes}
use sems_yeti.ArgConversion.{digits, decimal, is_digit, read_digits, read_len}

-- The number that digits stand for, from the digits read so far.
value_from : ℕ → Text → ℕ
value_from dst [] = dst
value_from dst (c ∷ t) = value_from (10 * dst + (c - b'0')) t

abbrev AllDigits : Text → Type 0
AllDigits [] = Unit {0}
AllDigits (c ∷ t) = (b'0' ≤ c) × (c ≤ b'9') × AllDigits t

digits-AllDigits : (k n : ℕ) (acc : Text) → AllDigits acc → AllDigits (digits k n acc)
unfolding digits
digits-AllDigits zero n acc h = h
digits-AllDigits (suc k) n acc h = elim (Bool-cases (n / 10 == 0)) [
  | inl e ↦ rw e (omega arith, omega arith, h)
  | inr e ↦ rw e (digits-AllDigits k (n / 10) ((b'0' + n % 10) ∷ acc) (omega arith, omega arith, h))
]

-- Printing with enough rounds in front of `acc` reads as `n`, then `acc`.
digits-value_from :
    (k n : ℕ) (acc : Text) → n < k → value_from 0 (digits k n acc) ≡ value_from n acc
unfolding digits value_from
digits-value_from zero n acc h = absurd (omega arith)
digits-value_from (suc k) n acc h = elim (Bool-cases (n / 10 == 0)) [
  | inl e ↦ rw e (ap (λ x. value_from x acc) (ground arith))
  | inr e ↦ rw e (
      digits-value_from k (n / 10) ((b'0' + n % 10) ∷ acc) (ground arith)
      ∙ ap (λ x. value_from x acc) (omega arith))
]

le-value_from : (dst : ℕ) (t : Text) → dst ≤ value_from dst t
unfolding value_from
le-value_from dst [] = omega arith
le-value_from dst (c ∷ t) = omega (arith, le-value_from (10 * dst + (c - b'0')) t)

read_digits-value_from :
    (count dst : ℕ) (t rest : Text)
    → AllDigits t
    → value_from dst t < u32
    → 0 < count + length t
    → read_digits count dst (t ++ codes "/" ++ rest) ≡ some (value_from dst t, rest)
unfolding read_digits value_from
read_digits-value_from count dst [] rest d h k = ground arith
read_digits-value_from count dst (c ∷ t) rest d h k =
    let dst' = 10 * dst + (c - b'0') in
    let small : dst' < u32 = omega (arith, le-value_from dst' t) in
    let same : dst' % u32 ≡ dst' = omega arith in
    let ih = read_digits-value_from (suc count) dst' t rest d.2 h (omega arith) in
    let digit : is_digit c ≡ true = ground (arith, d.0, d.1) in rw digit (rw same ih)

digits-pos : (k n : ℕ) (acc : Text) → 0 < k + length acc → 0 < length (digits k n acc)
unfolding digits
digits-pos zero n acc h = omega arith
digits-pos (suc k) n acc h = elim (Bool-cases (n / 10 == 0)) [
  | inl e ↦ rw e (omega arith)
  | inr e ↦ rw e (digits-pos k (n / 10) ((b'0' + n % 10) ∷ acc) (omega arith))
]

-- A length below 2 ^ 32 is read back, up to the separator.
pub read_len-decimal :
    (n : ℕ) (rest : Text) → n < u32 → read_len (decimal n ++ codes "/" ++ rest) ≡ some (n, rest)
unfolding value_from
read_len-decimal n rest h =
    let v = digits-value_from (suc n) n [] (omega arith) in
    read_digits-value_from 0 0 (decimal n) rest (digits-AllDigits (suc n) n [] tt) (rw v h)
      (omega (arith, digits-pos (suc n) n [] (omega arith)))
    ∙ ap (λ x. some (x, rest)) v
