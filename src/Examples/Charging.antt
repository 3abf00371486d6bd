-- ===== src/Examples/Charging.antt =====
-- Runs of the pricing, the late charges and the collections (app/domain/pricing.py,
-- app/domain/late_charges.py, app/services/late_charges.py and app/domain/collections.py).
use inpockets.Base.{
  ℕ, ◌+◌, ◌≤◌, ◌<◌, true, List, [], ◌∷◌, some, Result, ok, err, length, All, ◌≡◌, ◌≢◌, ◌↔◌, refl,
  arith,
}
use inpockets.Base.Int.{pos, ◌+ℤ◌, ◌-ℤ◌}
use inpockets.Base.Precision.{
  whole, round28, add28, sub28, mul28, div28, power28, inverse_power28, to_paise,
}
use inpockets.Base.Rounding.{half_up, half_even}
use inpockets.Pricing.{
  PricingTerms, PricingError, sum_differs, EmiRow, emi_schedule, emi_amount, emi_rows,
  principal_part, monthly_rate, monthly_interest, check_sum, validate, months_for_tenure,
  fee_and_gst, percent_of,
}
use inpockets.Pricing.Amortising.{PaysOff, emi_schedule-PaysOff, emi_schedule-sum}
use inpockets.Pricing.Quoting.{
  Quote, quote, quote_of_months, quote_of_rows, apr_percent, bisect, discounted,
}
use inpockets.Pricing.Quotes.{AddsUp, quote-AddsUp}
use inpockets.LateCharges.{
  LateTerms, Charge, bounce, Installment, Tally, total_cap, charge_for_day, charge_of, uncapped,
  bounce_amount, penal_amount, assess_days, days_to_assess, first_day,
}
use inpockets.LateCharges.Capped.{
  IsKept, Grows, charge_for_day-room, assess_days-IsKept, days_to_assess-within,
}
use inpockets.Collections.{
  InstallmentView, Overdue, days_8_30, is_late, oldest_of, overdue_among, overdue_of, bucket_for,
  bucket_range,
}
use inpockets.Collections.Buckets.{IsIn, bucket_for-bucket_range}
use inpockets.Collections.Oldest.{IsNamed, overdue_of-oldest}

abbrev terms : PricingTerms
terms = record {
  annual_interest_percent = whole 18;
  processing_fee_percent = whole 2;
  gst_percent = whole 18;
}

rows_or_none : Result PricingError (List EmiRow) → List EmiRow
rows_or_none (ok rows) = rows
rows_or_none (err e) = []

-- A loan of 1000.00 at 18 percent a year, for three months.
rows : List EmiRow
rows = rows_or_none (emi_schedule 100000 (whole 18) 3 10)

rows_ok : emi_schedule 100000 (whole 18) 3 10 ≡ ok rows
unfolding rows rows_or_none emi_schedule emi_rows principal_part check_sum emi_amount monthly_rate
    monthly_interest round28 add28 sub28 mul28 div28 inverse_power28 to_paise half_up half_even
rows_ok = refl

emi_schedule-PaysOff_example :
    PaysOff 1
      (emi_amount 100000 (monthly_rate (whole 18)) 3)
      10
      (monthly_interest (monthly_rate (whole 18)))
      100000
      rows
    × (length rows ≡ 3)
emi_schedule-PaysOff_example = emi_schedule-PaysOff 100000 (whole 18) 3 10 rows rows_ok

emi_schedule-sum_example : emi_schedule 100000 (whole 18) 3 10 ≢ err sum_differs
emi_schedule-sum_example = emi_schedule-sum 100000 (whole 18) 3 10

abbrev no_quote : Quote
no_quote = record {
  principal = 0;
  months = 0;
  processing_fee = 0;
  gst = 0;
  net_payout = 0;
  emi = 0;
  total_interest = 0;
  total_repayable = 0;
  apr = 0;
}

quote_or_none : Result PricingError Quote → Quote
quote_or_none (ok qt) = qt
quote_or_none (err e) = no_quote

offered : Quote
offered = quote_or_none (quote 100000 90 terms 10)

offered_ok : quote 100000 90 terms 10 ≡ ok offered
unfolding offered quote_or_none quote quote_of_months quote_of_rows validate months_for_tenure
    fee_and_gst percent_of apr_percent bisect discounted emi_schedule emi_rows principal_part
    check_sum emi_amount monthly_rate monthly_interest round28 add28 sub28 mul28 div28 power28
    inverse_power28 to_paise half_up half_even
offered_ok = refl

quote-AddsUp_example : AddsUp 100000 terms 10 offered
quote-AddsUp_example = quote-AddsUp 100000 90 terms 10 offered offered_ok

abbrev late : LateTerms
late = record {
  enabled = true;
  bounce_percent = whole 2;
  bounce_cap_amount = 50000;
  penal_annual_percent = whole 36;
  penal_max_days = 30;
  total_cap_percent_of_due = whole 10;
}

abbrev installment : Installment
installment = record {
  due_date = 30;
  principal_due = 40000;
  interest_due = 1000;
  fee_due = 0;
  principal_paid = 0;
}

abbrev start_tally : Tally
start_tally = record { installment = installment; charges = []; charged = 0; count = 0; total = 0 }

assess_days-IsKept_example :
    IsKept late (assess_days late (31 ∷ 32 ∷ []) start_tally)
    × Grows start_tally (assess_days late (31 ∷ 32 ∷ []) start_tally)
assess_days-IsKept_example =
    assess_days-IsKept late (31 ∷ 32 ∷ []) start_tally
      (record { sums = refl; capped = omega arith; daily = tt })

abbrev bounce_charge : Charge
bounce_charge = record { kind = bounce; charge_date = 31; basis = 40000; amount = 800 }

bounce_charged : charge_for_day installment 31 0 late ≡ some bounce_charge
unfolding charge_for_day charge_of uncapped bounce_amount penal_amount total_cap percent_of round28
    mul28 div28 to_paise half_up half_even ◌-ℤ◌ ◌+ℤ◌
bounce_charged = refl

charge_for_day-room_example :
    (◌≡◌ {A = ℕ} 31 31)
    × (0 < 800)
    × (0 + 800 ≤ total_cap 40000 1000 late)
    × (30 < 31)
    × (31 ≤ 30 + 30)
    × (true ≡ true)
charge_for_day-room_example =
    charge_for_day-room installment 31 0 late bounce_charge (omega arith) bounce_charged

days_to_assess-within_example :
    All
      (λ d. (first_day 30 (some 31) ≤ d) × (d ≤ 35) × (d ≤ 30 + 30))
      (days_to_assess 30 (some 31) 35 late)
days_to_assess-within_example = days_to_assess-within 30 (some 31) 35 late

abbrev overdue_view : InstallmentView
overdue_view = record {
  id = 11;
  number = 1;
  due_date = 30;
  principal_outstanding = pos 40000;
  interest_outstanding = pos 1000;
  fee_outstanding = pos 0;
}

abbrev overdue_now : Overdue
overdue_now = record {
  oldest_installment_id = 11;
  oldest_due_date = 30;
  dpd = 9;
  principal = pos 40000;
  interest = pos 1000;
  fees = pos 0;
}

overdue_found : overdue_of (overdue_view ∷ []) 39 ≡ some overdue_now
unfolding overdue_of overdue_among oldest_of ◌+ℤ◌
overdue_found = refl

overdue_of-oldest_example :
    (1 ≤ 9)
    × (30 + 9 ≡ 39)
    × IsNamed 39 (overdue_view ∷ []) overdue_now
    × All (λ i. is_late 39 i ≡ true → 30 ≤ i.due_date) (overdue_view ∷ [])
overdue_of-oldest_example = overdue_of-oldest (overdue_view ∷ []) 39 overdue_now overdue_found

bucket_for-bucket_range_example : (bucket_for 9 ≡ some days_8_30) ↔ IsIn 9 (bucket_range days_8_30)
bucket_for-bucket_range_example = bucket_for-bucket_range 9 days_8_30
