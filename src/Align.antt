-- ===== src/Align.antt =====
-- The integer helpers of python/freetoken/utils/misc.py.
use free_token_intel.Prelude.{
  ℕ, ◌+◌, ◌-◌, ◌*◌, ◌/◌, ◌%◌, ◌<◌, ◌≤◌, ◌≡◌, Bool, ◌&&◌, arith, ltb, ◌==◌, if◌then◌else◌, Result,
  ok, assertion_error, guard, ◌>>◌,
}

unfoldable pub div_ceil : ℕ → ℕ → ℕ
div_ceil a b = (a + b - 1) / b

unfoldable pub align_ceil : ℕ → ℕ → ℕ
unfolding div_ceil
align_ceil a b = div_ceil a b * b

unfoldable pub align_down : ℕ → ℕ → ℕ
align_down a b = (a / b) * b

-- `b % a` raises on a zero divisor; the callers pass positive sizes.
unfoldable pub div_even : ℕ → ℕ → Bool → Result ℕ
div_even a b allow_replicate =
    if allow_replicate && ltb a b
    then (do guard (b % a == 0) assertion_error; ok 1)
    else (do guard (a % b == 0) assertion_error; ok (a / b))

-- `align_down` is the largest multiple of the page size that is not above its argument.
pub align_down-le : (a b : ℕ) → align_down a b ≤ a
unfolding align_down
align_down-le a b = grind arith

pub lt-align_down : (a b : ℕ) → 0 < b → a < align_down a b + b
unfolding align_down
lt-align_down a b h = grind arith

pub align_down-mod : (a b : ℕ) → align_down a b % b ≡ 0
unfolding align_down
align_down-mod a b = grind arith
