-- ===== src/Base/Rounding.antt =====
-- Rounding a quotient to a whole number, as `Decimal.quantize` does: half to even and half up,
-- on the magnitude of a signed value.
use inpockets.Base.Tests.{ltb, ◌==◌, if◌then◌else◌}
use inpockets.Base.Int.{ℤ, pos, negsuc, sub_ℕ}
use Prim.Native.Nat.{ℕ, suc, ◌+◌, ◌*◌, ◌/◌, ◌%◌, ◌≤◌, ◌<◌}
use mathlib.Core.Path.{◌≡◌}
use native.Mathlib.Omega.{arith}

-- `ROUND_HALF_UP` of n / d.
unfoldable pub half_up : ℕ → ℕ → ℕ
half_up n d = (2 * n + d) / (2 * d)

-- `ROUND_HALF_EVEN` of n / d.
unfoldable pub half_even : ℕ → ℕ → ℕ
half_even n d =
    if ltb (2 * (n % d)) d
    then n / d
    else if ltb d (2 * (n % d))
    then n / d + 1
    else if (n / d) % 2 == 0
    then n / d
    else n / d + 1

-- The sign is kept and the magnitude is rounded.
abbrev pub signed : (ℕ → ℕ) → ℤ → ℤ
signed f (pos n) = pos (f n)
signed f (negsuc n) = sub_ℕ 0 (f (suc n))

-- The result is within half a unit of the quotient.
pub half_up_near :
    (n d : ℕ) → 0 < d → (half_up n d * (2 * d) ≤ 2 * n + d) × (2 * n < half_up n d * (2 * d) + d)
unfolding half_up
half_up_near n d h = (grind arith, grind arith)

pub half_even_near :
    (n d : ℕ)
    → 0 < d
    → (half_even n d * (2 * d) ≤ 2 * n + d) × (2 * n ≤ half_even n d * (2 * d) + d)
unfolding half_even
half_even_near n d h = (grind arith, grind arith)

-- A whole quotient is left as it is.
pub half_up_exact : (k d : ℕ) → 0 < d → half_up (k * d) d ≡ k
half_up_exact k d h = grind (arith, half_up_near (k * d) d h)

pub half_even_exact : (k d : ℕ) → 0 < d → half_even (k * d) d ≡ k
half_even_exact k d h = grind (arith, half_even_near (k * d) d h)

pub half_up_zero : (d : ℕ) → 0 < d → half_up 0 d ≡ 0
half_up_zero d h = grind (arith, half_up_near 0 d h)
