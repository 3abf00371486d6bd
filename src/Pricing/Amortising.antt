-- ===== src/Pricing/Amortising.antt =====
-- The rows of a priced loan (`emi_schedule` of app/domain/pricing.py) pay off the loan: an
-- independent description of such rows, and the proof that the loop produces them.
use inpockets.Base.{
  ℕ, zero, suc, ◌+◌, ◌-◌, ◌*◌, ◌≤◌, ◌<◌, ◌==◌, Bool, true, false, List, [], ◌∷◌, ok, err,
  Result-cases, Bool-cases, sum_of, length, ◌≡◌, ◌≢◌, ◌⊎◌, inl, inr, refl, sym, ap, ◌∙◌, arith,
}
use inpockets.Base.Precision.{Number}
use inpockets.Pricing.{
  PricingError, sum_differs, instalment_too_small, schedule_collapsed, EmiRow, row_total,
  principal_part, emi_rows, emi_amount, monthly_rate, monthly_interest, check_sum, emi_schedule,
  month_days, max_months,
}

-- Rows that pay off a balance: each bears the interest of what is still owed, pays some principal
-- and no more than is owed, in equal instalments but for the last row or where less is owed; row `n`
-- falls due on its month, and nothing is owed after the last row.
abbrev pub PaysOff : ℕ → ℕ → ℕ → (ℕ → ℕ) → ℕ → List EmiRow → Type 0
PaysOff n emi start interest_of balance [] = balance ≡ 0
PaysOff n emi start interest_of balance (row ∷ rest) =
    (row.number ≡ n)
    × (row.due_date ≡ start + month_days * n)
    × (row.interest ≡ interest_of balance)
    × (0 < row.principal)
    × (row.principal ≤ balance)
    × ((row.principal ≡ balance) ⊎ (row_total row ≡ emi))
    × PaysOff (suc n) emi start interest_of (balance - row.principal) rest

principal_part-ok :
    (last : Bool) (emi interest balance part : ℕ)
    → principal_part last emi interest balance ≡ ok part
    → (part ≤ balance)
      × ((part ≡ balance) ⊎ (part + interest ≡ emi))
      × (last ≡ true → part ≡ balance)
unfolding principal_part
principal_part-ok true emi interest balance part h = ground arith
principal_part-ok false emi interest balance part h = ground arith

-- What a round that succeeded did.
emi_rows-step :
    (rounds n emi start : ℕ) (interest_of : ℕ → ℕ) (balance : ℕ) (rows : List EmiRow)
    → emi_rows (suc rounds) n emi start interest_of balance ≡ ok rows
    → (part : ℕ) × (rest : List EmiRow) × (principal_part
          (rounds == 0)
          emi
          (interest_of balance)
          balance
        ≡ ok part)
      × (0 < part)
      × (emi_rows rounds (suc n) emi start interest_of (balance - part) ≡ ok rest)
      × (rows
          ≡ record {
            number = n;
            due_date = start + month_days * n;
            principal = part;
            interest = interest_of balance;
          }
            ∷ rest)
unfolding emi_rows
emi_rows-step rounds n emi start interest_of balance rows h =
    elim (Result-cases (principal_part (rounds == 0) emi (interest_of balance) balance)) [
      | inl (part, e) ↦
          elim (Result-cases (emi_rows rounds (suc n) emi start interest_of (balance - part))) [
            | inl (rest, f) ↦ (part, rest, e, ground (arith, e, f, h), f, ground (arith, e, f, h))
            | inr (x, f) ↦ absurd (ground (arith, e, f, h))
          ]
      | inr (x, e) ↦ absurd (ground (arith, e, h))
    ]

-- The loop, from any balance.
pub emi_rows-PaysOff :
    (rounds n emi start : ℕ) (interest_of : ℕ → ℕ) (balance : ℕ) (rows : List EmiRow)
    → emi_rows (suc rounds) n emi start interest_of balance ≡ ok rows
    → PaysOff n emi start interest_of balance rows × (length rows ≡ suc rounds)
unfolding emi_rows
emi_rows-PaysOff zero n emi start interest_of balance rows h =
    let (part, rest, e, some_part, f, same) =
      emi_rows-step zero n emi start interest_of balance rows h in
    let w = principal_part-ok true emi (interest_of balance) balance part e in
    let done : rest ≡ [] = ground (arith, f) in
    let paid = w.2 refl in
    rw same (rw done ((refl, refl, refl, some_part, w.0, w.1, omega (arith, paid)), refl))
emi_rows-PaysOff (suc rounds) n emi start interest_of balance rows h =
    let (part, rest, e, some_part, f, same) =
      emi_rows-step (suc rounds) n emi start interest_of balance rows h in
    let w = principal_part-ok (suc rounds == 0) emi (interest_of balance) balance part e in
    let more = emi_rows-PaysOff rounds (suc n) emi start interest_of (balance - part) rest f in
    rw same ((refl, refl, refl, some_part, w.0, w.1, more.0), ap suc more.1)

-- Rows that pay off a balance sum to it.
pub PaysOff-sum :
    (n emi start : ℕ) (interest_of : ℕ → ℕ) (balance : ℕ) (rows : List EmiRow)
    → PaysOff n emi start interest_of balance rows
    → sum_of (λ (r : EmiRow). r.principal) rows ≡ balance
PaysOff-sum n emi start interest_of balance [] h = sym h
PaysOff-sum n emi start interest_of balance (row ∷ rest) h =
    let more = PaysOff-sum (suc n) emi start interest_of (balance - row.principal) rest h.6 in
    omega (arith, more, h.4)

check_sum-err :
    (principal : ℕ) (rows : List EmiRow) (x : PricingError)
    → sum_of (λ (r : EmiRow). r.principal) rows ≡ principal
    → check_sum principal rows ≢ err x
unfolding check_sum
check_sum-err principal rows x h e = ground (arith, h, e)

check_sum-ok :
    (principal : ℕ) (rows rows' : List EmiRow) → check_sum principal rows ≡ ok rows' → rows ≡ rows'
unfolding check_sum
check_sum-ok principal rows rows' h = ground arith

-- The rows of a successful `emi_schedule`.
emi_schedule-step :
    (principal : ℕ) (annual : Number) (months start : ℕ) (rows : List EmiRow)
    → emi_schedule principal annual months start ≡ ok rows
    → let rate = monthly_rate annual in
      (1 ≤ months)
      × (months ≤ max_months)
      × (emi_rows months 1
            (emi_amount principal rate months)
            start
            (monthly_interest rate)
            principal
          ≡ ok rows)
unfolding emi_schedule
emi_schedule-step principal annual months start rows h =
    let rate = monthly_rate annual in
    let loop =
      emi_rows months 1 (emi_amount principal rate months) start (monthly_interest rate)
        principal in
    elim (Result-cases loop) [
      | inl (found, e) ↦ elim (Result-cases (check_sum principal found)) [
        | inl (kept, f) ↦
            (let same = check_sum-ok principal found kept f in
              (ground (arith, e, h), ground (arith, e, h), rw e (ground (arith, e, f, same, h))))
        | inr (x, f) ↦ absurd (ground (arith, e, f, h))
      ]
      | inr (x, e) ↦ absurd (ground (arith, e, h))
    ]

-- A schedule of a priced loan has one row for each month and pays off the loan: every row bears the
-- interest of what is still owed, pays some principal and no more than is owed, in equal instalments
-- but for the last row or where less is owed, and nothing is owed at the end.
pub emi_schedule-PaysOff :
    (principal : ℕ) (annual : Number) (months start : ℕ) (rows : List EmiRow)
    → emi_schedule principal annual months start ≡ ok rows
    → let rate = monthly_rate annual in
      PaysOff 1 (emi_amount principal rate months) start (monthly_interest rate) principal rows
      × (length rows ≡ months)
emi_schedule-PaysOff principal annual zero start rows h =
    absurd (omega (arith, (emi_schedule-step principal annual zero start rows h).0))
emi_schedule-PaysOff principal annual (suc months) start rows h =
    let rate = monthly_rate annual in
    let loop = emi_schedule-step principal annual (suc months) start rows h in
    emi_rows-PaysOff months 1 (emi_amount principal rate (suc months)) start (monthly_interest rate)
      principal rows loop.2

principal_part-err :
    (last : Bool) (emi interest balance : ℕ) (x : PricingError)
    → principal_part last emi interest balance ≡ err x
    → x ≡ instalment_too_small
unfolding principal_part
principal_part-err true emi interest balance x h = ground arith
principal_part-err false emi interest balance x h = ground arith

-- The loop fails in two ways only.
emi_rows-err :
    (rounds n emi start : ℕ) (interest_of : ℕ → ℕ) (balance : ℕ) (x : PricingError)
    → emi_rows rounds n emi start interest_of balance ≡ err x
    → (x ≡ instalment_too_small) ⊎ (x ≡ schedule_collapsed)
unfolding emi_rows
emi_rows-err zero n emi start interest_of balance x h = cc
emi_rows-err (suc rounds) n emi start interest_of balance x h =
    elim (Result-cases (principal_part (rounds == 0) emi (interest_of balance) balance)) [
      | inl (part, e) ↦
          elim (Result-cases (emi_rows rounds (suc n) emi start interest_of (balance - part))) [
            | inl (rest, f) ↦ inr (ground (arith, e, f, h))
            | inr (y, f) ↦
                (let before =
                    emi_rows-err rounds (suc n) emi start interest_of (balance - part) y f in
                  elim (Bool-cases (part == 0)) [
                    | inl z ↦ inr (ground (arith, e, f, h, z))
                    | inr z ↦ (let same : y ≡ x = ground (arith, e, f, h, z) in rw (← same) before)
                  ])
          ]
      | inr (y, e) ↦
          inl (let same : y ≡ x = ground (arith, e, h) in sym same ∙ principal_part-err _ _ _ _ y e)
    ]

-- The closing test of the sum in `emi_schedule` never fails: its rows always sum to the loan.
pub emi_schedule-sum :
    (principal : ℕ) (annual : Number) (months start : ℕ)
    → emi_schedule principal annual months start ≢ err sum_differs
unfolding emi_schedule
emi_schedule-sum principal annual zero start h = ground (arith, h)
emi_schedule-sum principal annual (suc months) start h =
    let rate = monthly_rate annual in
    let emi = emi_amount principal rate (suc months) in
    elim (Result-cases (emi_rows (suc months) 1 emi start (monthly_interest rate) principal)) [
      | inl (rows, e) ↦
          (let paid =
              emi_rows-PaysOff months 1 emi start (monthly_interest rate) principal rows e in
            let sum = PaysOff-sum 1 emi start (monthly_interest rate) principal rows paid.0 in
            check_sum-err principal rows sum_differs sum (ground (arith, e, h)))
      | inr (x, e) ↦
          (let why = emi_rows-err (suc months) 1 emi start (monthly_interest rate) principal x e in
            ground (arith, e, h, why))
    ]
