-- ===== src/Base/Decimal.antt =====
-- Python's `Decimal`, as far as the program uses it: an integer coefficient over a power of ten,
-- or a value that is not finite (NaN and the infinities). Exponents above zero are written out in
-- the coefficient. `decimal_text` is `str` of such a value. Sums are exact and `quantize` never fails:
-- the context's 28 digits are far beyond what a column of money holds.
use inpockets.Base.Tests.{ltb, ◌==◌, if◌then◌else◌}
use inpockets.Base.Int.{ℤ, pos, negsuc}
use inpockets.Base.Rounding.{half_even, half_even_exact}
use Prim.Native.Nat.{ℕ, zero, suc, ◌+◌, ◌*◌, ◌/◌, ◌%◌, ◌^◌}
use mathlib.Core.Path.{◌≡◌}
use mathlib.Core.Bool.{Bool, true, false}
use mathlib.Core.List.{List, [], ◌∷◌, ◌++◌}
use native.Mathlib.Omega.{arith}

pub data Decimal : Type 0 where
  not_finite : Decimal
  finite : ℤ → ℕ → Decimal

-- An amount of whole paise, with the two decimals that a `Numeric(_, 2)` column has.
abbrev pub of_paise : ℤ → Decimal
of_paise z = finite z 2

-- The paise of a positive coefficient, rounded half to even.
unfoldable pub paise_of : ℕ → ℕ → ℕ
paise_of n places = half_even (n * 100) (10 ^ places)

-- `amount.is_finite() and amount > 0`
abbrev pub is_positive : Decimal → Bool
is_positive not_finite = false
is_positive (finite (pos n) places) = ltb 0 n
is_positive (finite (negsuc n) places) = false

-- `amount == quantize(amount)`, for an amount that is positive.
unfoldable pub has_two_decimals : Decimal → Bool
has_two_decimals not_finite = false
has_two_decimals (finite (pos n) places) = paise_of n places * 10 ^ places == n * 100
has_two_decimals (finite (negsuc n) places) = false

-- The value of a positive amount in paise.
unfoldable pub paise : Decimal → ℕ
paise not_finite = 0
paise (finite (pos n) places) = paise_of n places
paise (finite (negsuc n) places) = 0

digits_from : ℕ → ℕ → List ℕ → List ℕ
digits_from zero n acc = acc
digits_from (suc fuel) n acc =
    let rest = digits_from fuel (n / 10) ((b'0' + n % 10) ∷ acc) in
    if ltb n 10 then (b'0' + n) ∷ acc else rest

-- The digits of a number, the first one leading.
pub digits : ℕ → List ℕ
unfolding digits_from
digits n = digits_from (suc n) n []

fraction : ℕ → ℕ → List ℕ
fraction zero m = []
fraction (suc p) m = (b'0' + m / 10 ^ p % 10) ∷ fraction p m

magnitude_text : ℕ → ℕ → List ℕ
unfolding digits fraction
magnitude_text n zero = digits n
magnitude_text n (suc p) = digits (n / 10 ^ suc p) ++ b'.' ∷ fraction (suc p) (n % 10 ^ suc p)

unfoldable pub decimal_text : Decimal → List ℕ
unfolding magnitude_text
decimal_text not_finite = b'N' ∷ b'a' ∷ b'N' ∷ []
decimal_text (finite (pos n) places) = magnitude_text n places
decimal_text (finite (negsuc n) places) = b'-' ∷ magnitude_text (suc n) places

-- Whole paise pass the test of two decimals, and are their own value.
pub paise-of_paise : (n : ℕ) → paise (of_paise (pos n)) ≡ n
unfolding paise paise_of
paise-of_paise n = half_even_exact n 100 (omega arith)

pub has_two_decimals-of_paise : (n : ℕ) → has_two_decimals (of_paise (pos n)) ≡ true
unfolding has_two_decimals paise_of
has_two_decimals-of_paise n = rw (half_even_exact n 100 (omega arith)) (ground arith)
