-- ===== src/Redis/Balance.antt =====
-- The counters in Redis: what a grant adds and its release subtracts.
use sems_yeti.Prelude.{
  ◌≡◌, refl, ap, inl, inr, Bool, true, false, ◌&&◌, List, [], ◌∷◌, arith, if◌then◌else◌, Bool-cases,
}
use sems_yeti.Prelude.Int.{ℤ, pos, negsuc, pos_part, neg_part, ◌+ℤ◌, ◌-ℤ◌, eqb_ℤ, int_laws}
use sems_yeti.Resource.{Resource}
use sems_yeti.Sequences.{
  of_resource, of_reply, Amount, plus, minus, Command, keys_all, multi, exec, hset_zero, hincrby,
  hvals,
}
use sems_yeti.Sequences.Operations.{filter_out, increments}
use sems_yeti.Redis.{gets, puts, taken_list}

-- What HINCRBY adds. A negative number under "-%d" prints two signs, which Redis refuses.
pub delta : Amount → ℤ
delta (plus n) = n
delta (minus (pos n)) = pos 0 -ℤ pos n
delta (minus (negsuc n)) = pos 0

delta-plus : (n : ℤ) → delta (plus n) ≡ n
unfolding delta
delta-plus n = refl

delta-minus : (n : ℤ) → neg_part n ≡ 0 → delta (minus n) ≡ pos 0 -ℤ n
unfolding delta
delta-minus (pos n) h = refl
delta-minus (negsuc n) h = absurd (omega arith)

-- What one command adds to the counter of the resource `t`, `i` at this node.
pub change : ℤ → ℤ → Command → ℤ
change t i (hincrby (of_resource u j) a) = if eqb_ℤ t u && eqb_ℤ i j then delta a else pos 0
change t i (hincrby (of_reply x) a) = pos 0
change t i keys_all = pos 0
change t i multi = pos 0
change t i exec = pos 0
change t i (hset_zero k) = pos 0
change t i (hvals k) = pos 0

pub net : ℤ → ℤ → List Command → ℤ
net t i [] = pos 0
net t i (c ∷ cs) = change t i c +ℤ net t i cs

-- Not yet taken, and asking for no negative number.
abbrev pub AllFree : List Resource → Type 0
AllFree [] = Unit {0}
AllFree (r ∷ rs) = (r.taken ≡ false) × (neg_part r.takes ≡ 0) × AllFree rs

-- The transactions of `get` and, on the list that `get` leaves, of `put`.
pub get_commands : List Resource → List Command
get_commands rl = increments (filter_out (gets rl))

pub put_commands : List Resource → List Command
put_commands rl = increments (filter_out (puts (taken_list rl)))

cancel :
    (b : Bool) (n x y : ℤ)
    → x +ℤ y ≡ pos 0
    → ((if b then n else pos 0) +ℤ x) +ℤ ((if b then pos 0 -ℤ n else pos 0) +ℤ y) ≡ pos 0
cancel true n x y h = omega (int_laws, ap pos_part h, ap neg_part h)
cancel false n x y h = omega (int_laws, ap pos_part h, ap neg_part h)

-- Whatever was chosen on a list of which nothing is taken and nothing negative asked for: what `put`
-- posts for a granted list takes back, counter by counter, what `get` posted for it.
pub put-get_balance :
    (t i : ℤ) (rl : List Resource)
    → AllFree rl
    → net t i (get_commands rl) +ℤ net t i (put_commands rl) ≡ pos 0
unfolding get_commands put_commands net increments filter_out gets puts taken_list change
put-get_balance t i [] f = omega int_laws
put-get_balance t i (r ∷ rl) (untaken, plain, f) =
    let ih = put-get_balance t i rl f in
    elim (Bool-cases r.active) [
      | inl on ↦
          rw (on, untaken)
            (rw (delta-plus r.takes, delta-minus r.takes plain)
              (cancel (eqb_ℤ t r.type && eqb_ℤ i r.id) r.takes _ _ ih))
      | inr off ↦ rw (off, untaken) ih
    ]
