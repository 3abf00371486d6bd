-- ===== src/Pricing/Quotes.antt =====
-- A quote adds up (`quote` of app/domain/pricing.py).
use inpockets.Base.{
  ℕ, ◌+◌, ◌-◌, ◌<◌, leb, List, map, ok, Result-cases, Bool-cases, sum_of, sum_of-add, ◌≡◌, inl, inr,
  arith,
}
use inpockets.Pricing.{
  PricingTerms, validate, months_for_tenure, fee_and_gst, EmiRow, row_total, emi_schedule,
}
use inpockets.Pricing.Amortising.{PaysOff-sum, emi_schedule-PaysOff}
use inpockets.Pricing.Quoting.{Quote, quote, quote_of_months, quote_of_rows, apr_percent}

-- What a quote promises: the payout is the loan less the fee and its tax, and is positive; what is
-- to be repaid is what the rows of the schedule ask for in all.
pub record AddsUp (principal : ℕ) (terms : PricingTerms) (start : ℕ) (qt : Quote) : Type 0 where
  pub rows : List EmiRow
  pub charges : (qt.processing_fee, qt.gst) ≡ fee_and_gst principal terms
  pub parts : qt.net_payout + qt.processing_fee + qt.gst ≡ principal
  pub pays_out : 0 < qt.net_payout
  pub schedule : emi_schedule principal terms.annual_interest_percent qt.months start ≡ ok rows
  pub repaid : qt.total_repayable ≡ sum_of row_total rows

rows_of_quote :
    (principal months fee gst : ℕ) (rows : List EmiRow) (qt : Quote)
    → quote_of_rows principal months (fee, gst) rows ≡ ok qt
    → (qt.processing_fee ≡ fee)
      × (qt.gst ≡ gst)
      × (qt.net_payout ≡ principal - fee - gst)
      × (qt.months ≡ months)
      × (qt.total_repayable ≡ principal + sum_of (λ (r : EmiRow). r.interest) rows)
unfolding quote_of_rows
rows_of_quote principal months fee gst rows qt h =
    elim (Result-cases (apr_percent (principal - fee - gst) (map row_total rows))) [
      | inl (apr, e) ↦ ground (arith, e, h)
      | inr (x, e) ↦ absurd (ground (arith, e, h))
    ]

quote_of_months-AddsUp :
    (principal months : ℕ) (terms : PricingTerms) (start : ℕ) (qt : Quote)
    → quote_of_months principal months terms start ≡ ok qt
    → AddsUp principal terms start qt
unfolding quote_of_months
quote_of_months-AddsUp principal months terms start qt h =
    let charges = fee_and_gst principal terms in
    elim (Bool-cases (leb principal (charges.0 + charges.1))) [
      | inl t ↦ absurd (ground (arith, t, h))
      | inr f ↦
          elim (Result-cases (emi_schedule principal terms.annual_interest_percent months start)) [
            | inl (rows, e) ↦
                (let parts =
                    rows_of_quote principal months charges.0 charges.1 rows qt
                      (ground (arith, f, e, h)) in
                  let room : charges.0 + charges.1 < principal = ground (arith, f) in
                  let paid =
                    emi_schedule-PaysOff principal terms.annual_interest_percent months start rows
                      e in
                  let sum = PaysOff-sum 1 _ start _ principal rows paid.0 in
                  record {
                    rows = rows;
                    charges = rw (parts.0, parts.1);
                    parts = omega (arith, parts.0, parts.1, parts.2, room);
                    pays_out = omega (arith, parts.2, room);
                    schedule = rw parts.3 e;
                    repaid = omega (
                      arith,
                      parts.4,
                      sum,
                      sum_of-add (λ (r : EmiRow). r.principal) (λ (r : EmiRow). r.interest) rows,
                    );
                  })
            | inr (x, e) ↦ absurd (ground (arith, f, e, h))
          ]
    ]

-- A quote adds up: the payout with the fee and its tax is the loan, the payout is positive, and what
-- is to be repaid is the sum of the rows of the schedule that `emi_schedule` gives for it.
pub quote-AddsUp :
    (principal tenure_days : ℕ) (terms : PricingTerms) (start : ℕ) (qt : Quote)
    → quote principal tenure_days terms start ≡ ok qt
    → AddsUp principal terms start qt
unfolding quote
quote-AddsUp principal tenure_days terms start qt h = elim (Result-cases (validate terms)) [
  | inl (t, v) ↦ elim (Result-cases (months_for_tenure tenure_days)) [
    | inl (months, e) ↦
        quote_of_months-AddsUp principal months terms start qt (ground (arith, v, e, h))
    | inr (x, e) ↦ absurd (ground (arith, v, e, h))
  ]
  | inr (x, v) ↦ absurd (ground (arith, v, h))
]
