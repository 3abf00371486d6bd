-- ===== src/Base/Results.antt =====
-- Python exceptions as values: a result is a value or the exception that was raised.
use mathlib.Core.Path.{◌≡◌, refl}
use mathlib.Core.Logic.{◌⊎◌, inl, inr}
use mathlib.Core.Bool.{Bool, true, false}

pub data Result (E A : Type 0) : Type 0 where
  err : E → Result E A
  ok : A → Result E A

-- What runs after a call, unless the call raised an exception.
infixl 5 ◌>>=◌ ◌>>◌
abbrev pub ◌>>=◌ : {E A B : Type 0} → Result E A → (A → Result E B) → Result E B
err raised >>= next = err raised
ok value >>= next = next value

abbrev pub ◌>>◌ : {E B : Type 0} → Result E (Unit {0}) → Result E B → Result E B
checked >> rest = checked >>= λ done. rest

-- `if b: raise e`
abbrev pub raise_if : {E : Type 0} → Bool → E → Result E (Unit {0})
raise_if false raised = ok tt
raise_if true raised = err raised

module _ {E A : Type 0} where
  pub Result-cases : (r : Result E A) → ((a : A) × (r ≡ ok a)) ⊎ ((e : E) × (r ≡ err e))
  Result-cases (err raised) = inr (raised, refl)
  Result-cases (ok value) = inl (value, refl)

  -- A call that succeeds has a first part that does.
  pub >>=-eq-ok :
      {B : Type 0} (first : Result E A) (next : A → Result E B) {value : B}
      → (first >>= next) ≡ ok value
      → (a : A) × (first ≡ ok a) × (next a ≡ ok value)
  >>=-eq-ok (err raised) next same = cc
  >>=-eq-ok (ok a) next same = (a, refl, same)
