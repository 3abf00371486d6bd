-- ===== src/LateCharges.antt =====
-- Late and bounce charges (app/domain/late_charges.py and the loop over the days of one installment
-- of app/services/late_charges.py). Amounts are whole paise, percentages are `Decimal` values, and a
-- date is the number of its day.
pub mod Capped
use inpockets.Base.{
  ℕ, zero, suc, ◌+◌, ◌-◌, ◌*◌, min, max, ltb, leb, ◌==◌, Bool, true, false, not, ◌&&◌, ◌||◌, List,
  [], ◌∷◌, ◌++◌, Option, none, some, if◌then◌else◌, sum_of,
}
use inpockets.Base.Int.{ℤ, pos, leb_ℤ, pos_part, ◌-ℤ◌}
use inpockets.Base.Precision.{Number, whole, rupees, mul28, div28, to_paise}
use inpockets.Pricing.{percent_of}

pub record LateTerms : Type 0 where
  pub enabled : Bool
  pub bounce_percent : Number
  pub bounce_cap_amount : ℕ
  pub penal_annual_percent : Number
  pub penal_max_days : ℕ
  pub total_cap_percent_of_due : Number

pub data Kind : Type 0 where
  bounce penal : Kind

pub record Charge : Type 0 where
  pub kind : Kind
  pub charge_date : ℕ
  pub basis : ℕ
  pub amount : ℕ

unfoldable pub bounce_amount : ℕ → LateTerms → ℕ
bounce_amount overdue_principal t =
    min (percent_of overdue_principal t.bounce_percent) t.bounce_cap_amount

unfoldable pub penal_amount : ℕ → LateTerms → ℕ
penal_amount overdue_principal t = to_paise (
    div28 (div28 (mul28 (rupees overdue_principal) t.penal_annual_percent) (whole 100)) (whole 365))

unfoldable pub total_cap : ℕ → ℕ → LateTerms → ℕ
total_cap principal_due interest_due t =
    percent_of (principal_due + interest_due) t.total_cap_percent_of_due

-- An installment with what the charge of a day reads of it.
pub record Installment : Type 0 where
  pub due_date : ℕ
  pub principal_due : ℕ
  pub interest_due : ℕ
  pub fee_due : ℕ
  pub principal_paid : ℕ

-- `inst.principal_due - inst.principal_paid`
abbrev pub overdue_principal : Installment → ℤ
overdue_principal i = pos i.principal_due -ℤ pos i.principal_paid

-- The kind and the amount of the charge for day `n`, before the cap on the total.
unfoldable pub uncapped : ℕ → ℕ → LateTerms → Kind × ℕ
uncapped n overdue t =
    if n == 1 then (bounce, bounce_amount overdue t) else (penal, penal_amount overdue t)

-- A charge of nothing is none.
unfoldable pub charge_of : Kind × ℕ → ℕ → ℕ → ℕ → Option Charge
charge_of (kind, amount) on overdue room =
    if min amount room == 0
    then none
    else some (record { kind = kind; charge_date = on; basis = overdue; amount = min amount room })

-- `charge_for_day`; the room under the cap is none where the cap is passed already.
unfoldable pub charge_for_day : Installment → ℕ → ℕ → LateTerms → Option Charge
charge_for_day i on already_charged t =
    let overdue = pos_part (overdue_principal i) in
    if not t.enabled || leb_ℤ (overdue_principal i) (pos 0)
    then none
    else if ltb (on - i.due_date) 1 || ltb t.penal_max_days (on - i.due_date)
    then none
    else charge_of (uncapped (on - i.due_date) overdue t) on overdue
        (total_cap i.principal_due i.interest_due t - already_charged)

-- As many days from `d` on.
unfoldable pub days_from : ℕ → ℕ → List ℕ
days_from zero d = []
days_from (suc n) d = d ∷ days_from n (suc d)

-- `last_assessed + timedelta(days=1)`, or the first day after the due date.
abbrev pub first_day : ℕ → Option ℕ → ℕ
first_day due_date none = suc due_date
first_day due_date (some last) = suc last

-- The loop counts the days up to its end.
unfoldable pub days_to_assess : ℕ → Option ℕ → ℕ → LateTerms → List ℕ
days_to_assess due_date last_assessed today t =
    let start = first_day due_date last_assessed in
    days_from (suc (min today (due_date + t.penal_max_days)) - start) start

-- The charges of an installment that the database holds, and `charged_so_far`.
abbrev pub charged_total : List Charge → ℕ
charged_total = sum_of (λ (c : Charge). c.amount)

abbrev pub later : ℕ → Option ℕ → Option ℕ
later d none = some d
later d (some e) = some (max d e)

abbrev pub last_charged : List Charge → Option ℕ
last_charged [] = none
last_charged (c ∷ rest) = later c.charge_date (last_charged rest)

-- The unique constraint on the installment and the day.
abbrev pub has_day : ℕ → List Charge → Bool
has_day d [] = false
has_day d (c ∷ rest) = c.charge_date == d || has_day d rest

-- The installment, its charges, and what the loop carries: what was charged in all, the number of
-- new charges and their sum.
pub record Tally : Type 0 where
  pub installment : Installment
  pub charges : List Charge
  pub charged : ℕ
  pub count : ℕ
  pub total : ℕ

-- A charge for a day that has one already is not inserted.
unfoldable pub add_charge : Option Charge → Tally → Tally
add_charge none s = s
add_charge (some c) s =
    let i = s.installment in
    if has_day c.charge_date s.charges then s else record {
      installment = record i { fee_due = i.fee_due + c.amount };
      charges = s.charges ++ c ∷ [];
      charged = s.charged + c.amount;
      count = s.count + 1;
      total = s.total + c.amount;
    }

unfoldable pub assess_days : LateTerms → List ℕ → Tally → Tally
assess_days t [] s = s
assess_days t (day ∷ rest) s =
    assess_days t rest (add_charge (charge_for_day s.installment day s.charged t) s)

-- One round of the loop over the installments.
unfoldable pub assess_installment : LateTerms → ℕ → Installment → List Charge → ℕ → ℕ → Tally
assess_installment t today i charges count total =
    let s : Tally = record {
      installment = i;
      charges = charges;
      charged = charged_total charges;
      count = count;
      total = total;
    } in
    if leb today i.due_date || leb_ℤ (overdue_principal i) (pos 0)
    then s
    else assess_days t (days_to_assess i.due_date (last_charged charges) today t) s

-- The loop over the installments of a schedule that is active and has late charges switched on.
unfoldable pub assess_all :
    LateTerms
    → ℕ
    → List (Installment × List Charge)
    → ℕ
    → ℕ
    → List (Installment × List Charge) × ℕ × ℕ
assess_all t today [] count total = ([], count, total)
assess_all t today ((i, charges) ∷ rest) count total =
    let s = assess_installment t today i charges count total in
    let (more, count', total') = assess_all t today rest s.count s.total in
    ((s.installment, s.charges) ∷ more, count', total')

-- `assess_schedule`; the status is `none` where there is no schedule, and so are the terms where the
-- loan has no frozen pricing.
pub data ScheduleStatus : Type 0 where
  draft active cancelled : ScheduleStatus

unfoldable pub assess_schedule :
    Option ScheduleStatus
    → Option LateTerms
    → ℕ
    → List (Installment × List Charge)
    → List (Installment × List Charge) × ℕ × ℕ
assess_schedule (some active) (some t) today rows =
    let assessed = assess_all t today rows 0 0 in if t.enabled then assessed else (rows, 0, 0)
assess_schedule _ _ today rows = (rows, 0, 0)
