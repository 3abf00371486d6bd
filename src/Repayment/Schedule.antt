-- ===== src/Repayment/Schedule.antt =====
-- The equal-principal schedule (`build_schedule` of app/domain/repayment.py).
use inpockets.Base.{
  ℕ, zero, suc, ◌+◌, ◌-◌, ◌*◌, ◌/◌, ◌%◌, ◌^◌, ltb, leb, not, ◌&&◌, List, [], ◌∷◌, Option, none,
  some, if◌then◌else◌, Result, ok, raise_if, ◌>>◌,
}
use inpockets.Base.Int.{ℤ, pos, negsuc, pos_part, ◌-ℤ◌, leb_ℤ, eqb_ℤ, sum_ℤ, negate}
use inpockets.Base.Rounding.{signed}
use inpockets.Base.Precision.{whole, round28, mul28, div28, to_paise_even}

abbrev pub max_installments : ℕ
max_installments = 60

abbrev pub max_interval_days : ℕ
max_interval_days = 365

pub data ScheduleError : Type 0 where
  principal_not_positive count_out_of_range interval_out_of_range principal_too_small sum_differs :
      ScheduleError

-- A rate in percent: a coefficient and the number of its decimals.
pub record Rate : Type 0 where
  pub coefficient : ℤ
  pub places : ℕ

pub record InstallmentPlan : Type 0 where
  pub number : ℕ
  pub due_date : ℕ
  pub principal_due : ℤ
  pub interest_due : ℤ
  pub fee_due : ℤ

-- A product of two signed numbers.
times : ℤ → ℤ → ℤ
times (pos a) (pos b) = pos (a * b)
times (pos a) (negsuc b) = negate (pos (a * suc b))
times (negsuc a) (pos b) = negate (pos (suc a * b))
times (negsuc a) (negsuc b) = pos (suc a * suc b)

-- `q(remaining * annual_rate_percent / 100 * interval_days / 365)`, where each operation keeps 28
-- digits and `q` rounds half to even; a rate that is missing or zero gives none.
unfoldable pub interest_of : ℤ → Option Rate → ℕ → ℤ
unfolding times
interest_of remaining none interval_days = pos 0
interest_of remaining (some rate) interval_days =
    if eqb_ℤ rate.coefficient (pos 0)
    then pos 0
    else signed
        (λ n. to_paise_even (
          div28
            (mul28 (div28 (round28 n (10 ^ (rate.places + 2))) (whole 100)) (whole interval_days))
            (whole 365)))
        (times remaining rate.coefficient)

-- The share of installment `n`: the leftover paise go one each to the last installments.
unfoldable pub share : ℕ → ℕ → ℕ → ℕ → ℕ
share base extra count n = base + (if ltb (count - extra) n then 1 else 0)

-- The rounds of the loop that are left, from installment `n` on.
unfoldable pub plan_rows : ℕ → ℕ → (ℕ → ℕ) → ℕ → ℕ → Option Rate → ℤ → List InstallmentPlan
plan_rows zero n part start interval_days rate remaining = []
plan_rows (suc rounds) n part start interval_days rate remaining =
    record {
      number = n;
      due_date = start + interval_days * n;
      principal_due = pos (part n);
      interest_due = interest_of remaining rate interval_days;
      fee_due = pos 0;
    }
    ∷ plan_rows rounds (suc n) part start interval_days rate (remaining -ℤ pos (part n))

unfoldable pub build_schedule :
    ℤ → ℕ → ℕ → ℕ → Option Rate → Result ScheduleError (List InstallmentPlan)
build_schedule principal count start interval_days rate = do
  raise_if (leb_ℤ principal (pos 0)) principal_not_positive
  raise_if (not (leb 1 count && leb count max_installments)) count_out_of_range
  raise_if (not (leb 1 interval_days && leb interval_days max_interval_days)) interval_out_of_range
  let base = pos_part principal / count
  let extra = pos_part principal % count
  raise_if (ltb base 1) principal_too_small
  let plans = plan_rows count 1 (share base extra count) start interval_days rate principal
  raise_if (not (eqb_ℤ (sum_ℤ (λ (p : InstallmentPlan). p.principal_due) plans) principal))
      sum_differs
  ok plans
