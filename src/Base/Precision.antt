-- ===== src/Base/Precision.antt =====
-- Python's `Decimal` arithmetic in its default context, on values that are not negative: a result is
-- rounded half to even to 28 significant digits. A value is a coefficient over a power of ten.
use inpockets.Base.Tests.{ltb}
use inpockets.Base.Rounding.{half_up, half_even}
use Prim.Native.Nat.{ℕ, zero, suc, ◌+◌, ◌-◌, ◌*◌, ◌/◌, ◌^◌}
use mathlib.Core.Bool.{Bool, true, false}

pub record Number : Type 0 where
  pub coefficient : ℕ
  pub places : ℕ

-- The least number of 29 digits.
abbrev limit : ℕ
limit = 10 ^ 28

-- Digits of n / d past its point, while the quotient stays below the limit.
more_digits : ℕ → ℕ → ℕ → ℕ → Number
more_digits zero n d s = record { coefficient = half_even n d; places = s }
more_digits (suc fuel) n d s = elim (ltb (n * 10 / d) limit) [
  | true ↦ more_digits fuel (n * 10) d (suc s)
  | false ↦ record { coefficient = half_even n d; places = s }
]

-- Digits before the point that a quotient past the limit loses.
fewer_digits : ℕ → ℕ → ℕ → ℕ → Number
fewer_digits zero n d k = record { coefficient = half_even n (d * 10 ^ k) * 10 ^ k; places = 0 }
fewer_digits (suc fuel) n d k = elim (ltb (n / (d * 10 ^ k)) limit) [
  | true ↦ record { coefficient = half_even n (d * 10 ^ k) * 10 ^ k; places = 0 }
  | false ↦ fewer_digits fuel n d (suc k)
]

-- The quotient n / d to 28 significant digits. As many steps as the terms are large suffice, since
-- each one moves a power of ten.
unfoldable pub round28 : ℕ → ℕ → Number
unfolding more_digits fewer_digits
round28 n d = elim (ltb (n / d) limit) [
  | true ↦ more_digits (28 + d) n d 0
  | false ↦ fewer_digits n n d 0
]

abbrev pub whole : ℕ → Number
whole n = record { coefficient = n; places = 0 }

-- Whole paise, as an amount of rupees.
abbrev pub rupees : ℕ → Number
rupees n = record { coefficient = n; places = 2 }

unfoldable pub add28 : Number → Number → Number
add28 a b =
    round28 (a.coefficient * 10 ^ b.places + b.coefficient * 10 ^ a.places)
      (10 ^ (a.places + b.places))

-- For `b` at most `a`.
unfoldable pub sub28 : Number → Number → Number
sub28 a b =
    round28 (a.coefficient * 10 ^ b.places - b.coefficient * 10 ^ a.places)
      (10 ^ (a.places + b.places))

unfoldable pub mul28 : Number → Number → Number
mul28 a b = round28 (a.coefficient * b.coefficient) (10 ^ (a.places + b.places))

unfoldable pub div28 : Number → Number → Number
div28 a b = round28 (a.coefficient * 10 ^ b.places) (b.coefficient * 10 ^ a.places)

-- `a ** n`, correctly rounded.
unfoldable pub power28 : Number → ℕ → Number
power28 a n = round28 (a.coefficient ^ n) (10 ^ (a.places * n))

-- `a ** -n`, correctly rounded.
unfoldable pub inverse_power28 : Number → ℕ → Number
inverse_power28 a n = round28 (10 ^ (a.places * n)) (a.coefficient ^ n)

-- `a < b`
abbrev pub less : Number → Number → Bool
less a b = ltb (a.coefficient * 10 ^ b.places) (b.coefficient * 10 ^ a.places)

-- `quantize` to paise, half up and half to even.
unfoldable pub to_paise : Number → ℕ
to_paise a = half_up (a.coefficient * 100) (10 ^ a.places)

unfoldable pub to_paise_even : Number → ℕ
to_paise_even a = half_even (a.coefficient * 100) (10 ^ a.places)
