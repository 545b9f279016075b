-- ===== src/RateLimit/Budget.antt =====
-- How much a limiter lets pass.
use sems_yeti.Prelude.{
  ℕ, zero, suc, ◌+◌, ◌-◌, ◌*◌, ◌^◌, ◌<◌, ◌≤◌, ◌≡◌, refl, inl, inr, true, false, List, [], ◌∷◌,
  arith, if◌then◌else◌, Bool-cases,
}
use sems_yeti.Prelude.Int.{ℤ, pos, negsuc, pos_part, neg_part, ◌+ℤ◌, ◌-ℤ◌, ◌≤ℤ◌, leb_ℤ, int_laws}
use sems_yeti.Prelude.Words.{wrap, wrap_range}
use sems_yeti.RateLimit.{DynRateLimit, min_ℤ, is_over, update_limit, refresh, spend, limit}

-- The counter is at most the peak, and far from the lower end of `int`.
pub record IsSound (peak : ℕ) (d : DynRateLimit) : Type 0 where
  pub below : pos_part d.counter ≤ peak
  pub above : neg_part d.counter < 2 ^ 31

-- The numbers of a limiter that `int` can hold.
pub record Fits (rate peak : ℕ) : Type 0 where
  pub sum_fits : rate + peak < 2 ^ 31

add_parts_le :
    (a b : ℤ)
    → (pos_part (a +ℤ b) ≤ pos_part a + pos_part b) × (neg_part (a +ℤ b) ≤ neg_part a + neg_part b)
unfolding ◌+ℤ◌
add_parts_le a b = ground arith

sub_parts_le :
    (a b : ℤ)
    → (pos_part (a -ℤ b) ≤ pos_part a + neg_part b) × (neg_part (a -ℤ b) ≤ neg_part a + pos_part b)
unfolding ◌-ℤ◌
sub_parts_le a b = ground arith

min_bounds :
    (p : ℕ) (x : ℤ)
    → (pos_part (min_ℤ (pos p) x) ≤ p)
      × (neg_part (min_ℤ (pos p) x) ≤ neg_part x)
      × (min_ℤ (pos p) x ≤ℤ x)
min_bounds p (pos n) = ground arith
min_bounds p (negsuc n) = ground arith

-- A counter that the test lets pass is above zero.
spend_fits :
    (c : ℤ) (peak size : ℕ)
    → pos_part c ≤ peak
    → peak < 2 ^ 31
    → size < 2 ^ 31
    → leb_ℤ c (pos 0) ≡ false
    → (0 < pos_part c)
      × (neg_part c ≡ 0)
      × (pos_part (c -ℤ pos size) < 2 ^ 31)
      × (neg_part (c -ℤ pos size) ≤ size - 1)
unfolding ◌-ℤ◌
spend_fits (pos zero) peak size h k l m = cc
spend_fits (pos (suc n)) peak size h k l m = ground arith
spend_fits (negsuc n) peak size h k l m = ground arith

module _ (rate peak : ℕ) (fits : Fits rate peak) where
  update_limit-counter :
      (later : ℕ) (d : DynRateLimit)
      → IsSound peak d
      → (update_limit later (wrap (pos rate)) (wrap (pos peak)) d).counter
        ≡ min_ℤ (pos peak) (d.counter +ℤ pos rate)
  unfolding update_limit
  update_limit-counter later d s = rw (
    wrap_range (pos rate) (omega (arith, fits.sum_fits)) (omega arith),
    wrap_range (pos peak) (omega (arith, fits.sum_fits)) (omega arith),
    wrap_range (d.counter +ℤ pos rate)
        (omega (arith, fits.sum_fits, s.below, (add_parts_le d.counter (pos rate)).0))
        (omega (arith, s.above, (add_parts_le d.counter (pos rate)).1)),
  )

  -- A refresh adds at most the rate, and keeps the counter in its bounds.
  update_limit-le :
      (later : ℕ) (d : DynRateLimit)
      → IsSound peak d
      → let e = update_limit later (wrap (pos rate)) (wrap (pos peak)) d in
        IsSound peak e
        × (e.counter ≤ℤ d.counter +ℤ pos rate)
        × (neg_part e.counter ≤ neg_part d.counter)
  update_limit-le later d s =
      let q = update_limit-counter later d s in
      let x = d.counter +ℤ pos rate in
      let b = min_bounds peak x in
      (
        record {
          below = rw q b.0;
          above = rw q (omega (arith, b.1, s.above, (add_parts_le d.counter (pos rate)).1));
        },
        rw q b.2,
        rw q (omega (arith, b.1, (add_parts_le d.counter (pos rate)).1)),
      )

  spend_dropped :
      (size : ℕ) (d : DynRateLimit) → leb_ℤ d.counter (pos 0) ≡ true → spend size d ≡ (d, true)
  unfolding spend
  spend_dropped size d e = rw e

  spend-counter :
      (size : ℕ) (d : DynRateLimit)
      → size < 2 ^ 31
      → IsSound peak d
      → leb_ℤ d.counter (pos 0) ≡ false
      → spend size d ≡ (record d { counter = d.counter -ℤ pos size }, false)
  unfolding spend
  spend-counter size d h s more =
      let f = spend_fits d.counter peak size s.below (omega (arith, fits.sum_fits)) h more in
      rw (more, wrap_range (d.counter -ℤ pos size) (omega (arith, f.2)) (omega (arith, f.3)))

  refresh-le :
      (now later : ℕ) (d : DynRateLimit)
      → IsSound peak d
      → let e = refresh now later rate peak d in
        IsSound peak e
        × (e.counter ≤ℤ d.counter +ℤ pos (if is_over now d then rate else 0))
        × (neg_part e.counter ≤ neg_part d.counter)
  unfolding refresh
  refresh-le now later d s = elim (Bool-cases (is_over now d)) [
    | inl e ↦ rw e (update_limit-le later d s)
    | inr e ↦ rw e (s, omega int_laws, omega arith)
  ]

-- A call of `limit`: the two readings of the clock, and the size asked for.
pub record Call : Type 0 where
  pub now : ℕ
  pub later : ℕ
  pub size : ℕ

-- A limiter after a number of calls, with the sum of the sizes that passed and the refreshes.
pub record Usage : Type 0 where
  pub dyn : DynRateLimit
  pub passed : ℕ
  pub refreshes : ℕ

module _ (rate peak : ℕ) where
  pub one : Call → Usage → Usage
  one c u =
      let (d, dropped) = limit c.now c.later rate peak c.size u.dyn in
      record {
        dyn = d;
        passed = if dropped then u.passed else u.passed + c.size;
        refreshes = if is_over c.now u.dyn then suc u.refreshes else u.refreshes;
      }

  unfoldable pub run : List Call → Usage → Usage
  unfolding one
  run [] u = u
  run (c ∷ cs) u = run cs (one c u)

-- Every call asks for at most `m`.
abbrev pub AllBelow : ℕ → List Call → Type 0
AllBelow m [] = Unit {0}
AllBelow m (c ∷ cs) = (c.size ≤ m) × AllBelow m cs

-- What passed and what is left come from the first counter and the refreshes.
pub record Accounted (rate peak start m : ℕ) (u : Usage) : Type 0 where
  pub sound : IsSound peak u.dyn
  pub account :
      u.passed + pos_part u.dyn.counter ≤ start + rate * u.refreshes + neg_part u.dyn.counter
  pub shallow : neg_part u.dyn.counter ≤ m - 1

module _ (rate peak : ℕ) (fits : Fits rate peak) (start m : ℕ) (small : m < 2 ^ 31) where
  refreshed : Call → Usage → Usage
  refreshed c u = record u {
    dyn = refresh c.now c.later rate peak u.dyn;
    refreshes = if is_over c.now u.dyn then suc u.refreshes else u.refreshes;
  }

  spent : ℕ → Usage → Usage
  spent size u =
      let (d, dropped) = spend size u.dyn in
      record u { dyn = d; passed = if dropped then u.passed else u.passed + size }

  one-spent : (c : Call) (u : Usage) → one rate peak c u ≡ spent c.size (refreshed c u)
  unfolding one limit refreshed spent
  one-spent c u = refl

  refreshed-Accounted :
      (c : Call) (u : Usage)
      → Accounted rate peak start m u
      → Accounted rate peak start m (refreshed c u)
  unfolding refreshed
  refreshed-Accounted c u a =
      let (sound, le, shallower) = refresh-le rate peak fits c.now c.later u.dyn a.sound in
      record {
        sound = sound;
        account = elim (Bool-cases (is_over c.now u.dyn)) [
          | inl e ↦ rw e (let le' = rw e at le in omega (int_laws, le', a.account))
          | inr e ↦ rw e (let le' = rw e at le in omega (int_laws, le', a.account))
        ];
        shallow = omega (arith, shallower, a.shallow);
      }

  spent-Accounted :
      (size : ℕ) (u : Usage)
      → size ≤ m
      → Accounted rate peak start m u
      → Accounted rate peak start m (spent size u)
  unfolding spent
  spent-Accounted size u h a = elim (Bool-cases (leb_ℤ u.dyn.counter (pos 0))) [
    | inl e ↦ rw (spend_dropped rate peak fits size u.dyn e) a
    | inr e ↦
        let f =
          spend_fits u.dyn.counter peak size a.sound.below (omega (arith, fits.sum_fits))
            (omega arith) e in
        rw (spend-counter rate peak fits size u.dyn (omega arith) a.sound e) (record {
          sound = record {
            below = omega (arith, a.sound.below, (sub_parts_le u.dyn.counter (pos size)).0);
            above = omega (arith, f.3);
          };
          account = omega (int_laws, a.account);
          shallow = omega (arith, f.3);
        })
  ]

  run-Accounted :
      (cs : List Call) (u : Usage)
      → AllBelow m cs
      → Accounted rate peak start m u
      → Accounted rate peak start m (run rate peak cs u)
  unfolding run
  run-Accounted [] u b a = a
  run-Accounted (c ∷ cs) u b a =
      run-Accounted cs (one rate peak c u) b.1 (
        rw (one-spent c u) (spent-Accounted c.size (refreshed c u) b.0 (refreshed-Accounted c u a)))

-- A limiter that starts with `c ≤ peak` units lets pass less than `c + rate * refreshes + m` units
-- in any sequence of calls for at most `m ≥ 1` units each, and its counter ends at most at the peak and
-- above `-m`, if `rate + peak` and `m` are below 2 ^ 31.
pub run_budget :
    (rate peak m : ℕ) (cs : List Call) (d : DynRateLimit) (c : ℕ)
    → rate + peak < 2 ^ 31
    → 0 < m
    → m < 2 ^ 31
    → d.counter ≡ pos c
    → c ≤ peak
    → AllBelow m cs
    → let u = run rate peak cs (record { dyn = d; passed = 0; refreshes = 0 }) in
      (u.passed < c + rate * u.refreshes + m)
      × (pos_part u.dyn.counter ≤ peak)
      × (neg_part u.dyn.counter < m)
run_budget rate peak m cs d c fits positive small start bound below =
    let u = run rate peak cs (record { dyn = d; passed = 0; refreshes = 0 }) in
    let a =
      run-Accounted rate peak (record { sum_fits = fits }) c m small cs
        (record { dyn = d; passed = 0; refreshes = 0 }) below
        (record {
          sound = record { below = rw start bound; above = rw start (omega arith) };
          account = rw start (omega arith);
          shallow = rw start (omega arith);
        }) in
    (omega (arith, a.account, a.shallow), a.sound.below, omega (arith, a.shallow))
