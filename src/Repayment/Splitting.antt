-- ===== src/Repayment/Splitting.antt =====
-- The principal of a schedule is split in whole paise (`build_schedule` of
-- app/domain/repayment.py): the shares differ by one paisa at most and sum to the principal, so the
-- last check of the function never fails.
use inpockets.Base.{
  ℕ, zero, suc, ◌+◌, ◌-◌, ◌*◌, ◌/◌, ◌%◌, ◌≤◌, ◌<◌, ◌≡◌, refl, ap, subst, ◌∙◌, true, List, [], ◌∷◌,
  arith, Option, Bool-cases, length, ltb, inl, inr, ◌⊎◌, ok, err, ltb→lt, ltb→ge, min,
}
use inpockets.Base.Int.{
  ℤ, pos, negsuc, ◌≤ℤ◌, ◌<ℤ◌, ◌-ℤ◌, int_laws, sum_ℤ, eq_of_parts, eq_parts, eqb_ℤ_iff,
}
use inpockets.Repayment.Schedule.{
  InstallmentPlan, ScheduleError, Rate, share, plan_rows, build_schedule, principal_not_positive,
  count_out_of_range, interval_out_of_range, principal_too_small, sum_differs, max_installments,
  max_interval_days,
}

abbrev pub principal_sum : List InstallmentPlan → ℤ
principal_sum = sum_ℤ (λ p. p.principal_due)

-- The sum of `part n` for the rounds that are left.
parts_sum : ℕ → ℕ → (ℕ → ℕ) → ℕ
parts_sum zero n part = 0
parts_sum (suc rounds) n part = part n + parts_sum rounds (suc n) part

principal_sum-plan_rows :
    (rounds n : ℕ) (part : ℕ → ℕ) (start interval : ℕ) (rate : Option Rate) (remaining : ℤ)
    → principal_sum (plan_rows rounds n part start interval rate remaining)
      ≡ pos (parts_sum rounds n part)
unfolding plan_rows parts_sum
principal_sum-plan_rows zero n part start interval rate remaining = refl
principal_sum-plan_rows (suc rounds) n part start interval rate remaining = eq_of_parts _ _ (
    omega (
      int_laws,
      eq_parts (
          principal_sum-plan_rows rounds (suc n) part start interval rate
            (remaining -ℤ pos (part n))),
    ))

-- The rounds left take `base` each, and the last `extra` of them one paisa more.
parts_sum-share :
    (count rounds n base extra : ℕ)
    → n + rounds ≡ suc count
    → extra ≤ count
    → parts_sum rounds n (share base extra count) ≡ rounds * base + min rounds extra
unfolding parts_sum share
parts_sum-share count zero n base extra e h = omega arith
parts_sum-share count (suc rounds) n base extra e h =
    let rest = parts_sum-share count rounds (suc n) base extra (omega arith) h in
    elim (Bool-cases (ltb (count - extra) n)) [
      | inl t ↦ rw t (omega (arith, rest, ltb→lt _ _ t))
      | inr f ↦ rw f (omega (arith, rest, ltb→ge _ _ f))
    ]

module _ (principal count : ℕ) (h : 1 ≤ count) where
  -- The shares sum to the principal.
  shares_sum : parts_sum count 1 (share (principal / count) (principal % count) count) ≡ principal
  shares_sum =
      let e : principal % count ≤ count = grind arith in
      let s =
        parts_sum-share count count 1 (principal / count) (principal % count) (omega arith) e in
      grind (arith, s)

range_cases : (n top : ℕ) → ((n < 1) ⊎ (top < n)) ⊎ ((1 ≤ n) × (n ≤ top))
range_cases n top = grind arith

lt_or_le : (m n : ℕ) → (m < n) ⊎ (n ≤ m)
lt_or_le m n = omega arith

plans_of : ℕ → ℕ → ℕ → ℕ → Option Rate → List InstallmentPlan
plans_of principal count start interval rate =
    plan_rows count 1 (share (principal / count) (principal % count) count) start interval rate
      (pos principal)

plans_sum :
    (principal count start interval : ℕ) (rate : Option Rate)
    → 1 ≤ count
    → principal_sum (plans_of principal count start interval rate) ≡ pos principal
unfolding plans_of
plans_sum principal count start interval rate h =
    principal_sum-plan_rows count 1 _ start interval rate (pos principal)
    ∙ ap pos (shares_sum principal count h)

build_schedule_plans :
    (principal count start interval : ℕ) (rate : Option Rate)
    → 1 ≤ count
    → count ≤ max_installments
    → 1 ≤ interval
    → interval ≤ max_interval_days
    → count ≤ principal
    → build_schedule (pos principal) count start interval rate
      ≡ ok (plans_of principal count start interval rate)
unfolding build_schedule plans_of
build_schedule_plans principal count start interval rate c1 c2 i1 i2 enough =
    let plans =
      plan_rows count 1 (share (principal / count) (principal % count) count) start interval rate
        (pos principal) in
    let test =
      (eqb_ℤ_iff (principal_sum plans) (pos principal)).1
        (plans_sum principal count start interval rate c1) in
    let base : 1 ≤ principal / count = grind arith in ground (arith, test, base)

-- Installments numbered from `n`, one interval apart, each of `base` or of one paisa more, with no
-- fee.
abbrev pub IsPlanned : ℕ → ℕ → ℕ → ℕ → List InstallmentPlan → Type 0
IsPlanned base start interval n [] = Unit
IsPlanned base start interval n (p ∷ ps) =
    (p.number ≡ n)
    × (p.due_date ≡ start + interval * n)
    × ((p.principal_due ≡ pos base) ⊎ (p.principal_due ≡ pos (base + 1)))
    × (p.fee_due ≡ pos 0)
    × IsPlanned base start interval (suc n) ps

share_cases :
    (base extra count n : ℕ)
    → (pos (share base extra count n) ≡ pos base)
      ⊎ (pos (share base extra count n) ≡ pos (base + 1))
unfolding share
share_cases base extra count n = ground arith

plan_rows-IsPlanned :
    (rounds n base extra count start interval : ℕ) (rate : Option Rate) (remaining : ℤ)
    → let plans = plan_rows rounds n (share base extra count) start interval rate remaining in
      IsPlanned base start interval n plans × (length plans ≡ rounds)
unfolding plan_rows
plan_rows-IsPlanned zero n base extra count start interval rate remaining = (tt, refl)
plan_rows-IsPlanned (suc rounds) n base extra count start interval rate remaining =
    let (rest, size) =
      plan_rows-IsPlanned rounds (suc n) base extra count start interval rate
        (remaining -ℤ pos (share base extra count n)) in
    ((refl, refl, share_cases base extra count n, refl, rest), ap suc size)

-- With a count and an interval in range, and a paisa at least for each installment, a schedule is
-- built: as many installments as asked for, one interval apart, that sum to the principal and
-- differ by one paisa at most.
pub build_schedule_succeeds :
    (principal count start interval : ℕ) (rate : Option Rate)
    → 1 ≤ count
    → count ≤ max_installments
    → 1 ≤ interval
    → interval ≤ max_interval_days
    → count ≤ principal
    → (plans : List InstallmentPlan) × (build_schedule (pos principal) count start interval rate
        ≡ ok plans)
      × (length plans ≡ count)
      × (principal_sum plans ≡ pos principal)
      × IsPlanned (principal / count) start interval 1 plans
unfolding plans_of
build_schedule_succeeds principal count start interval rate c1 c2 i1 i2 enough =
    let (planned, size) =
      plan_rows-IsPlanned count 1 (principal / count) (principal % count) count start interval rate
        (pos principal) in
    (
      plans_of principal count start interval rate,
      build_schedule_plans principal count start interval rate c1 c2 i1 i2 enough,
      size,
      plans_sum principal count start interval rate c1,
      planned,
    )

quotient_small :
    (principal count : ℕ) → 1 ≤ count → principal < count → ltb (principal / count) 1 ≡ true
quotient_small principal count c h = let e : principal / count ≡ 0 = grind arith in rw e

abbrev pub IsWithin : ℕ → ℕ → Type 0
IsWithin n most = (1 ≤ n) × (n ≤ most)

abbrev pub IsOutside : ℕ → ℕ → Type 0
IsOutside n most = (n < 1) ⊎ (most < n)

-- The first condition that fails, in the order of the checks.
abbrev pub IsRefusal : ℤ → ℕ → ℕ → ScheduleError → Type 0
IsRefusal principal count interval principal_not_positive = principal ≤ℤ pos 0
IsRefusal principal count interval count_out_of_range =
    (pos 0 <ℤ principal) × IsOutside count max_installments
IsRefusal principal count interval interval_out_of_range =
    (pos 0 <ℤ principal) × IsWithin count max_installments × IsOutside interval max_interval_days
IsRefusal principal count interval principal_too_small =
    (pos 0 <ℤ principal)
    × IsWithin count max_installments
    × IsWithin interval max_interval_days
    × (principal <ℤ pos count)
IsRefusal principal count interval sum_differs = ⊥

-- A schedule is refused only for the first condition that fails, in the order: the principal is not
-- positive, the count is out of range, the interval is out of range, there is not a paisa for each
-- installment. It is never refused because its installments do not sum to the principal.
pub build_schedule_errors :
    (principal : ℤ) (count start interval : ℕ) (rate : Option Rate) (e : ScheduleError)
    → build_schedule principal count start interval rate ≡ err e
    → IsRefusal principal count interval e
unfolding build_schedule
build_schedule_errors (negsuc n) count start interval rate e h =
    let k : principal_not_positive ≡ e = ground (arith, h) in
    subst (IsRefusal (negsuc n) count interval) k (omega arith)
build_schedule_errors (pos zero) count start interval rate e h =
    let k : principal_not_positive ≡ e = ground (arith, h) in
    subst (IsRefusal (pos 0) count interval) k (omega arith)
build_schedule_errors (pos (suc paise)) count start interval rate e h =
    let Refusal = IsRefusal (pos (suc paise)) count interval in
    let due : pos 0 <ℤ pos (suc paise) = omega arith in
    elim (range_cases count max_installments) [
      | inl out ↦
          (let k : count_out_of_range ≡ e = ground (arith, h, out) in subst Refusal k (due, out))
      | inr c ↦ elim (range_cases interval max_interval_days) [
        | inl out ↦
            (let k : interval_out_of_range ≡ e = ground (arith, h, c, out) in
              subst Refusal k (due, c, out))
        | inr i ↦ elim (lt_or_le (suc paise) count) [
          | inl small ↦
              (let q = quotient_small (suc paise) count c.0 small in
                let k : principal_too_small ≡ e = ground (arith, h, c, i, q) in
                subst Refusal k (due, c, i, omega (arith, small)))
          | inr enough ↦ absurd (
              let built =
                build_schedule_plans (suc paise) count start interval rate c.0 c.1 i.0 i.1 enough in
              cc)
        ]
      ]
    ]
