-- ===== src/Prelude/Words.antt =====
-- 32-bit machine integers.
use sems_yeti.Prelude.{ℕ, ◌-◌, ◌%◌, ◌^◌, ◌<◌, ◌≤◌, ◌≡◌, arith, ltb, if◌then◌else◌}
use sems_yeti.Prelude.Int.{ℤ, pos, negsuc, pos_part, neg_part}

abbrev pub u32 : ℕ
u32 = 2 ^ 32

-- The 32-bit pattern of an integer, and the `int` that a pattern stands for.
abbrev pub bits : ℤ → ℕ
bits (pos n) = n % u32
bits (negsuc n) = u32 - 1 - n % u32

abbrev pub signed : ℕ → ℤ
signed w = if ltb w (2 ^ 31) then pos w else negsuc (u32 - w - 1)

-- A conversion to `int`, or a result of `int` arithmetic as the machine leaves it.
unfoldable pub wrap : ℤ → ℤ
wrap z = signed (bits z)

-- An `int` holds what lies in its range.
pub wrap_range : (z : ℤ) → pos_part z < 2 ^ 31 → neg_part z ≤ 2 ^ 31 → wrap z ≡ z
unfolding wrap
wrap_range (pos n) h k = ground arith
wrap_range (negsuc n) h k = ground arith
