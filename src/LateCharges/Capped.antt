-- ===== src/LateCharges/Capped.antt =====
-- The charges of an installment stay under their cap, one a day, and are what its fees grow by
-- (`charge_for_day` of app/domain/late_charges.py and `assess_schedule` of
-- app/services/late_charges.py).
use inpockets.Base.{
  ℕ, zero, suc, ◌+◌, ◌-◌, ◌≤◌, ◌<◌, min, ltb, true, false, not, ◌||◌, List, [], ◌∷◌, ◌++◌, Option,
  none, some, sum_of-append, All, All-mono, Bool-cases, ◌≡◌, ◌≢◌, refl, ap, ◌∙◌, inl, inr, arith,
}
use inpockets.Base.Int.{pos, leb_ℤ, pos_part}
use inpockets.LateCharges.{
  LateTerms, Kind, Charge, Installment, overdue_principal, total_cap, uncapped, charge_of,
  charge_for_day, days_from, first_day, days_to_assess, charged_total, has_day, Tally, add_charge,
  assess_days,
}

charge_of-room :
    (k : Kind × ℕ) (on overdue room : ℕ) (c : Charge)
    → charge_of k on overdue room ≡ some c
    → (c.charge_date ≡ on) × (0 < c.amount) × (c.amount ≤ room)
unfolding charge_of
charge_of-room (kind, amount) on overdue room c h = ground arith

-- The charge of a day is positive, is for that day, which is one of the days that may be charged,
-- and fits under the cap on the total together with what was charged already.
pub charge_for_day-room :
    (i : Installment) (on already : ℕ) (t : LateTerms) (c : Charge)
    → already ≤ total_cap i.principal_due i.interest_due t
    → charge_for_day i on already t ≡ some c
    → (c.charge_date ≡ on)
      × (0 < c.amount)
      × (already + c.amount ≤ total_cap i.principal_due i.interest_due t)
      × (i.due_date < on)
      × (on ≤ i.due_date + t.penal_max_days)
      × (t.enabled ≡ true)
unfolding charge_for_day
charge_for_day-room i on already t c cap h =
    let overdue = pos_part (overdue_principal i) in
    let room = total_cap i.principal_due i.interest_due t - already in
    elim (Bool-cases (not t.enabled || leb_ℤ (overdue_principal i) (pos 0))) [
      | inl x ↦ absurd (ground (arith, x, h))
      | inr x ↦
          elim (Bool-cases (ltb (on - i.due_date) 1 || ltb t.penal_max_days (on - i.due_date))) [
            | inl y ↦ absurd (ground (arith, x, y, h))
            | inr y ↦
                (let w =
                    charge_of-room (uncapped (on - i.due_date) overdue t) on overdue room c
                      (ground (arith, x, y, h)) in
                  (
                    w.0,
                    w.1,
                    omega (arith, w.2, cap),
                    ground (arith, y),
                    ground (arith, y),
                    ground (arith, x),
                  ))
          ]
    ]

-- A day has one charge at most.
abbrev pub AreDaily : List Charge → Type 0
AreDaily [] = Unit
AreDaily (c ∷ rest) = (has_day c.charge_date rest ≡ false) × AreDaily rest

has_day-append :
    (d : ℕ) (cs : List Charge) (c : Charge)
    → has_day d cs ≡ false
    → d ≢ c.charge_date
    → has_day d (cs ++ c ∷ []) ≡ false
has_day-append d [] c h n = ground arith
has_day-append d (e ∷ cs) c h n = ground (arith, has_day-append d cs c)

has_day-other : (cs : List Charge) (d e : ℕ) → d ≡ e → has_day d cs ≡ has_day e cs
has_day-other cs d e p = ap (λ x. has_day x cs) p

AreDaily-append :
    (cs : List Charge) (c : Charge)
    → AreDaily cs
    → has_day c.charge_date cs ≡ false
    → AreDaily (cs ++ c ∷ [])
AreDaily-append [] c h n = (refl, tt)
AreDaily-append (e ∷ cs) c h n = (
  has_day-append e.charge_date cs c h.0 (λ same. ground (arith, same, n)),
  AreDaily-append cs c h.1 (ground (arith, n)),
)

-- The books of an installment: the running total is that of its charges, which stay under the cap,
-- one a day.
pub record IsKept (t : LateTerms) (s : Tally) : Type 0 where
  pub sums : s.charged ≡ charged_total s.charges
  pub capped : s.charged ≤ total_cap s.installment.principal_due s.installment.interest_due t
  pub daily : AreDaily s.charges

-- What the loop leaves of the installment, and how much it adds to its fees.
pub record Grows (s s' : Tally) : Type 0 where
  pub principal : s'.installment.principal_due ≡ s.installment.principal_due
  pub interest : s'.installment.interest_due ≡ s.installment.interest_due
  pub paid : s'.installment.principal_paid ≡ s.installment.principal_paid
  pub fee : s'.installment.fee_due + s.charged ≡ s.installment.fee_due + s'.charged
  pub total : s'.total + s.charged ≡ s.total + s'.charged
  pub from : s.charged ≤ s'.charged

add_charge-IsKept :
    (t : LateTerms) (o : Option Charge) (s : Tally)
    → ((c : Charge)
        → o ≡ some c
        → s.charged + c.amount ≤ total_cap s.installment.principal_due s.installment.interest_due t)
    → IsKept t s
    → IsKept t (add_charge o s) × Grows s (add_charge o s)
unfolding add_charge
add_charge-IsKept t none s fits h = (
  h,
  record {
    principal = refl;
    interest = refl;
    paid = refl;
    fee = refl;
    total = refl;
    from = omega arith;
  },
)
add_charge-IsKept t (some c) s fits h = elim (Bool-cases (has_day c.charge_date s.charges)) [
  | inl taken ↦ rw taken (
    h,
    record {
      principal = refl;
      interest = refl;
      paid = refl;
      fee = refl;
      total = refl;
      from = omega arith;
    },
  )
  | inr free ↦ rw free (
    record {
      sums = rw sum_of-append (omega (arith, h.sums));
      capped = fits c refl;
      daily = AreDaily-append s.charges c h.daily free;
    },
    record {
      principal = refl;
      interest = refl;
      paid = refl;
      fee = omega arith;
      total = omega arith;
      from = omega arith;
    },
  )
]

-- Whatever the days for which an installment is assessed, its charges stay under the cap and one a
-- day, where they were so before; its fees and the total that is reported grow by exactly what is
-- charged.
pub assess_days-IsKept :
    (t : LateTerms) (days : List ℕ) (s : Tally)
    → IsKept t s
    → IsKept t (assess_days t days s) × Grows s (assess_days t days s)
unfolding assess_days
assess_days-IsKept t [] s h = (
  h,
  record {
    principal = refl;
    interest = refl;
    paid = refl;
    fee = refl;
    total = refl;
    from = omega arith;
  },
)
assess_days-IsKept t (day ∷ rest) s h =
    let o = charge_for_day s.installment day s.charged t in
    let next =
      add_charge-IsKept t o s
        (λ c e. (charge_for_day-room s.installment day s.charged t c h.capped e).2) h in
    let s' : Tally = add_charge o s in
    let more = assess_days-IsKept t rest s' next.0 in
    let g = next.1 in
    let k = more.1 in
    (
      more.0,
      record {
        principal = k.principal ∙ g.principal;
        interest = k.interest ∙ g.interest;
        paid = k.paid ∙ g.paid;
        fee = omega (arith, k.fee, g.fee, k.from, g.from);
        total = omega (arith, k.total, g.total, k.from, g.from);
        from = omega (arith, k.from, g.from);
      },
    )

days_from-within : (n d : ℕ) → All (λ x. (d ≤ x) × (x < d + n)) (days_from n d)
unfolding days_from
days_from-within zero d = tt
days_from-within (suc n) d = (
  (omega arith, omega arith),
  All-mono (λ x. (suc d ≤ x) × (x < suc d + n)) (λ x. (d ≤ x) × (x < d + suc n)) _
      (λ x h. (omega (arith, h.0), omega (arith, h.1))) (days_from-within n (suc d)),
)

-- The days that are still to be charged come after the last one that was, or after the due date,
-- and go neither past today nor past the last penal day.
pub days_to_assess-within :
    (due : ℕ) (last : Option ℕ) (today : ℕ) (t : LateTerms)
    → All
        (λ d. (first_day due last ≤ d) × (d ≤ today) × (d ≤ due + t.penal_max_days))
        (days_to_assess due last today t)
unfolding days_to_assess
days_to_assess-within due last today t =
    let start = first_day due last in
    let n = suc (min today (due + t.penal_max_days)) - start in
    All-mono (λ d. (start ≤ d) × (d < start + n)) _ _
      (λ d h. (h.0, omega (arith, h.0, h.1), omega (arith, h.0, h.1))) (days_from-within n start)
