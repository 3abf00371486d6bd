-- ===== src/Pricing.antt =====
-- Loan pricing (app/domain/pricing.py): the fee with its tax, the schedule of equal instalments, the
-- annual rate and the quote. Amounts are whole paise; percentages, rates and quotients are
-- `Decimal` values of 28 digits. The texts shown to the customer are left out.
pub mod Amortising
pub mod Quoting
pub mod Quotes
use inpockets.Base.{
  ℕ, zero, suc, ◌+◌, ◌-◌, ◌*◌, ◌/◌, ◌%◌, ltb, leb, ◌==◌, Bool, true, false, not, ◌&&◌, List, [],
  ◌∷◌, map, if◌then◌else◌, Result, ok, err, raise_if, ◌>>=◌, ◌>>◌, sum_of,
}
use inpockets.Base.Precision.{
  Number, whole, rupees, add28, sub28, mul28, div28, power28, inverse_power28, less, to_paise,
}

abbrev pub month_days : ℕ
month_days = 30

abbrev pub max_months : ℕ
max_months = 60

pub data PricingError : Type 0 where
  interest_out_of_range fee_out_of_range gst_out_of_range tenure_not_months tenure_too_long :
      PricingError
  principal_not_positive months_out_of_range instalment_too_small schedule_collapsed sum_differs :
      PricingError
  apr_without_payments nothing_to_pay_out : PricingError

-- Percentages that are not negative; a negative one does not pass `validate`.
pub record PricingTerms : Type 0 where
  pub annual_interest_percent : Number
  pub processing_fee_percent : Number
  pub gst_percent : Number

-- `PricingTerms.validate`
unfoldable pub validate : PricingTerms → Result PricingError Unit
validate t = do
  raise_if (less (whole 100) t.annual_interest_percent) interest_out_of_range
  raise_if (less (whole 25) t.processing_fee_percent) fee_out_of_range
  raise_if (less (whole 50) t.gst_percent) gst_out_of_range
  ok tt

unfoldable pub months_for_tenure : ℕ → Result PricingError ℕ
months_for_tenure tenure_days = do
  raise_if (not (leb month_days tenure_days && tenure_days % month_days == 0)) tenure_not_months
  raise_if (ltb max_months (tenure_days / month_days)) tenure_too_long
  ok (tenure_days / month_days)

-- `q(amount * percent / 100)`
unfoldable pub percent_of : ℕ → Number → ℕ
percent_of amount percent = to_paise (div28 (mul28 (rupees amount) percent) (whole 100))

unfoldable pub fee_and_gst : ℕ → PricingTerms → ℕ × ℕ
fee_and_gst principal t =
    let fee = percent_of principal t.processing_fee_percent in (fee, percent_of fee t.gst_percent)

pub record EmiRow : Type 0 where
  pub number : ℕ
  pub due_date : ℕ
  pub principal : ℕ
  pub interest : ℕ

-- `EmiRow.total`
abbrev pub row_total : EmiRow → ℕ
row_total r = r.principal + r.interest

-- `q(balance * rate)`
unfoldable pub monthly_interest : Number → ℕ → ℕ
monthly_interest rate balance = to_paise (mul28 (rupees balance) rate)

-- The principal that an instalment pays; the last one pays the whole balance.
unfoldable pub principal_part : Bool → ℕ → ℕ → ℕ → Result PricingError ℕ
principal_part true emi interest balance = ok balance
principal_part false emi interest balance = do
  raise_if (leb emi interest) instalment_too_small
  ok (if ltb balance (emi - interest) then balance else emi - interest)

-- The rounds of the loop that are left, from instalment `n` on.
unfoldable pub emi_rows : ℕ → ℕ → ℕ → ℕ → (ℕ → ℕ) → ℕ → Result PricingError (List EmiRow)
emi_rows zero n emi start interest_of balance = ok []
emi_rows (suc rounds) n emi start interest_of balance = do
  part ← principal_part (rounds == 0) emi (interest_of balance) balance
  raise_if (part == 0) schedule_collapsed
  let row : EmiRow = record {
    number = n;
    due_date = start + month_days * n;
    principal = part;
    interest = interest_of balance;
  }
  rest ← emi_rows rounds (suc n) emi start interest_of (balance - part)
  ok (row ∷ rest)

-- The fixed instalment.
unfoldable pub emi_amount : ℕ → Number → ℕ → ℕ
emi_amount principal rate months =
    if rate.coefficient == 0
    then to_paise (div28 (rupees principal) (whole months))
    else to_paise (
        div28 (mul28 (rupees principal) rate)
          (sub28 (whole 1) (inverse_power28 (add28 (whole 1) rate) months)))

unfoldable pub monthly_rate : Number → Number
monthly_rate annual_interest_percent = div28 (div28 annual_interest_percent (whole 100)) (whole 12)

unfoldable pub check_sum : ℕ → List EmiRow → Result PricingError (List EmiRow)
check_sum principal rows = do
  raise_if (not (sum_of (λ (r : EmiRow). r.principal) rows == principal)) sum_differs
  ok rows

unfoldable pub emi_schedule : ℕ → Number → ℕ → ℕ → Result PricingError (List EmiRow)
emi_schedule principal annual_interest_percent months start = do
  raise_if (principal == 0) principal_not_positive
  raise_if (not (leb 1 months && leb months max_months)) months_out_of_range
  let rate = monthly_rate annual_interest_percent
  rows ←
      emi_rows months 1 (emi_amount principal rate months) start (monthly_interest rate) principal
  check_sum principal rows
