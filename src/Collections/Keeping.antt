-- ===== src/Collections/Keeping.antt =====
-- What every call of the collections service keeps of the cases of a schedule
-- (app/services/collections.py): the columns agree with each other, levels only rise, and a closed
-- case stays closed.
use inpockets.Base.{
  ◌≤◌, ltb, ◌≡◌, refl, subst, sym, ap, Bool, true, false, List, [], ◌∷◌, ◌++◌, Option, none, some,
  arith, All,
}
use inpockets.Collections.Cases.{CaseStatus, escalated, closed_case, CollectionCase, CaseDesk}

abbrev pub is_escalated : CaseStatus → Bool
is_escalated escalated = true
is_escalated _ = false

abbrev pub is_closed : CaseStatus → Bool
is_closed closed_case = true
is_closed _ = false

-- The constraints of the table on a live case.
pub record IsValidCase (c : CollectionCase) : Type 0 where
  pub overdue : 1 ≤ c.dpd
  pub level : c.escalation_level ≤ 3
  pub escalated_iff : is_escalated c.status ≡ ltb 0 c.escalation_level
  pub not_closed : is_closed c.status ≡ false

abbrev pub IsValidLive : Option CollectionCase → Type 0
IsValidLive none = Unit
IsValidLive (some c) = IsValidCase c

-- The live case is valid, and the closed ones are closed.
pub record IsValidDesk (d : CaseDesk) : Type 0 where
  pub for_live : IsValidLive d.live
  pub for_closed : All (λ c. is_closed c.status ≡ true) d.closed

-- The case that stays live does not fall to a lower level, and no closed case is changed.
abbrev pub RisesLive : Option CollectionCase → Option CollectionCase → Type 0
RisesLive (some c) (some c') = (c'.id ≡ c.id) × (c.escalation_level ≤ c'.escalation_level)
RisesLive _ _ = Unit

abbrev pub KeepsCases : CaseDesk → CaseDesk → Type 0
KeepsCases d d' =
    IsValidDesk d'
    × RisesLive d.live d'.live
    × ((more : List CollectionCase) × (d'.closed ≡ d.closed ++ more))

pub append_none {ℓ} : {A : Type ℓ} (xs : List A) → xs ≡ xs ++ []
append_none [] = refl
append_none (x ∷ xs) = ap (λ ys. x ∷ ys) (append_none xs)

pub RisesLive-refl : (o : Option CollectionCase) → RisesLive o o
RisesLive-refl none = tt
RisesLive-refl (some c) = (refl, omega arith)

pub KeepsCases-refl : (d : CaseDesk) → IsValidDesk d → KeepsCases d d
KeepsCases-refl d v = (v, RisesLive-refl d.live, ([], append_none d.closed))

-- A live case that is changed in place.
pub changed_in_place :
    (d d' : CaseDesk) (c c' : CollectionCase)
    → IsValidDesk d
    → d.live ≡ some c
    → d'.live ≡ some c'
    → d'.closed ≡ d.closed
    → IsValidCase c'
    → c'.id ≡ c.id
    → c.escalation_level ≤ c'.escalation_level
    → KeepsCases d d'
changed_in_place d d' c c' v at at' closed valid same rises = (
  record { for_live = subst IsValidLive (sym at') valid; for_closed = rw closed v.for_closed },
  subst (λ o. RisesLive o d'.live) (sym at)
      (subst (λ o. RisesLive (some c) o) (sym at') (same, rises)),
  ([], rw closed (append_none d.closed)),
)

pub valid_live :
    (d : CaseDesk) (c : CollectionCase) → IsValidDesk d → d.live ≡ some c → IsValidCase c
valid_live d c v at = subst IsValidLive at v.for_live
