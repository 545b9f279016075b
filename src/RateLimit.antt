-- ===== src/RateLimit.antt =====
-- src/RateLimit.h and RateLimit.cpp: a token bucket on 32-bit machine integers. The wall clock is
-- read twice in a call, and each reading is an argument; the mutex makes a call one step.
mod Tests
pub mod Budget
use sems_yeti.Prelude.{ℕ, ◌+◌, ◌-◌, ◌/◌, ◌%◌, ◌^◌, Bool, true, false, ltb, if◌then◌else◌}
use sems_yeti.Prelude.Int.{ℤ, pos, ◌+ℤ◌, ◌-ℤ◌, ltb_ℤ, leb_ℤ}
use sems_yeti.Prelude.Words.{u32, wrap}

pub record DynRateLimit : Type 0 where
  pub last_update : ℕ
  pub counter : ℤ
  pub time_base : ℕ

-- The wall clock ticks every 20 ms.
abbrev pub dyn_rate_limit : ℕ → DynRateLimit
dyn_rate_limit time_base_ms = record {
  last_update = 0;
  counter = pos 0;
  time_base = time_base_ms / 20;
}

abbrev pub min_ℤ : ℤ → ℤ → ℤ
min_ℤ a b = if ltb_ℤ a b then a else b

unfoldable pub update_limit : ℕ → ℤ → ℤ → DynRateLimit → DynRateLimit
update_limit now rate peak d = record d {
  counter = min_ℤ peak (wrap (d.counter +ℤ rate));
  last_update = now;
}

-- `wall_clock - last_update > time_base`, of unsigned numbers.
abbrev pub is_over : ℕ → DynRateLimit → Bool
is_over now d = ltb d.time_base ((now + u32 - d.last_update) % u32)

unfoldable pub refresh : ℕ → ℕ → ℕ → ℕ → DynRateLimit → DynRateLimit
unfolding update_limit
refresh now later rate peak d =
    if is_over now d then update_limit later (wrap (pos rate)) (wrap (pos peak)) d else d

-- Whether `size` is to be dropped. `counter -= size` is of unsigned numbers.
unfoldable pub spend : ℕ → DynRateLimit → DynRateLimit × Bool
spend size d =
    if leb_ℤ d.counter (pos 0)
    then (d, true)
    else (record d { counter = wrap (d.counter -ℤ pos size) }, false)

unfoldable pub limit : ℕ → ℕ → ℕ → ℕ → ℕ → DynRateLimit → DynRateLimit × Bool
unfolding refresh spend
limit now later rate peak size d = spend size (refresh now later rate peak d)

-- The class with a fixed rate and peak.
pub record RateLimit : Type 0 where
  pub dyn : DynRateLimit
  pub rate : ℕ
  pub peak : ℕ

abbrev pub limit_fixed : ℕ → ℕ → ℕ → RateLimit → RateLimit × Bool
limit_fixed now later size r =
    let (d, dropped) = limit now later r.rate r.peak size r.dyn in (record r { dyn = d }, dropped)
