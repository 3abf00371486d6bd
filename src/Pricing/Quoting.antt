-- ===== src/Pricing/Quoting.antt =====
-- The annual rate and the quote (`apr_percent` and `quote` of app/domain/pricing.py).
use inpockets.Base.{
  ℕ, zero, suc, ◌+◌, ◌-◌, leb, ◌==◌, Bool, true, false, List, [], ◌∷◌, map, if◌then◌else◌, Result,
  ok, raise_if, ◌>>=◌, ◌>>◌, sum_of, length,
}
use inpockets.Base.Precision.{Number, whole, rupees, add28, mul28, div28, power28, less, to_paise}
use inpockets.Pricing.{
  PricingTerms, PricingError, apr_without_payments, nothing_to_pay_out, validate, months_for_tenure,
  fee_and_gst, EmiRow, row_total, emi_schedule,
}

-- The payments discounted by a monthly rate, added up from the month `i` on.
unfoldable pub discounted : Number → ℕ → List ℕ → Number → Number
discounted rate i [] acc = acc
discounted rate i (p ∷ rest) acc =
    discounted rate (suc i) rest
      (add28 acc (div28 (rupees p) (power28 (add28 (whole 1) rate) (suc i))))

-- `pv(rate) > 0`
abbrev pub is_worth_more : ℕ → List ℕ → Number → Bool
is_worth_more net_payout payments rate =
    less (rupees net_payout) (discounted rate 0 payments (whole 0))

-- The iterations that are left.
unfoldable pub bisect : ℕ → (Number → Bool) → Number → Number → Number
bisect zero above lo hi = div28 (add28 lo hi) (whole 2)
bisect (suc n) above lo hi =
    let mid = div28 (add28 lo hi) (whole 2) in
    elim (above mid) [ true ↦ bisect n above mid hi | false ↦ bisect n above lo mid ]

-- `apr_percent`, in hundredths of a percent.
unfoldable pub apr_percent : ℕ → List ℕ → Result PricingError ℕ
apr_percent net_payout payments = do
  raise_if (net_payout == 0) apr_without_payments
  raise_if (length payments == 0) apr_without_payments
  (if leb (sum_of (λ p. p) payments) net_payout
      then ok 0
      else ok (
          to_paise (
            mul28
              (mul28 (bisect 80 (is_worth_more net_payout payments) (whole 0) (whole 10))
                (whole 12))
              (whole 100))))

pub record Quote : Type 0 where
  pub principal : ℕ
  pub months : ℕ
  pub processing_fee : ℕ
  pub gst : ℕ
  pub net_payout : ℕ
  pub emi : ℕ
  pub total_interest : ℕ
  pub total_repayable : ℕ
  pub apr : ℕ

-- `rows[0].total`; a schedule has a row.
abbrev pub first_total : List EmiRow → ℕ
first_total [] = 0
first_total (row ∷ rest) = row_total row

-- From the rows on.
unfoldable pub quote_of_rows : ℕ → ℕ → ℕ × ℕ → List EmiRow → Result PricingError Quote
quote_of_rows principal months (fee, gst) rows = do
  let net = principal - fee - gst
  let total_interest = sum_of (λ (r : EmiRow). r.interest) rows
  apr ← apr_percent net (map row_total rows)
  ok (record {
    principal = principal;
    months = months;
    processing_fee = fee;
    gst = gst;
    net_payout = net;
    emi = first_total rows;
    total_interest = total_interest;
    total_repayable = principal + total_interest;
    apr = apr;
  })

-- From the months on.
unfoldable pub quote_of_months : ℕ → ℕ → PricingTerms → ℕ → Result PricingError Quote
quote_of_months principal months terms start = do
  let charges = fee_and_gst principal terms
  raise_if (leb principal (charges.0 + charges.1)) nothing_to_pay_out
  rows ← emi_schedule principal terms.annual_interest_percent months start
  quote_of_rows principal months charges rows

unfoldable pub quote : ℕ → ℕ → PricingTerms → ℕ → Result PricingError Quote
quote principal tenure_days terms start = do
  validate terms
  months ← months_for_tenure tenure_days
  quote_of_months principal months terms start
