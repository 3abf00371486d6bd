-- ===== src/Collections.antt =====
-- Collections (app/domain/collections.py): the bucket of a number of days past due, what is overdue
-- of a loan, and which reminder or escalation is due. Amounts are whole paise, and a date is the
-- number of its day.
pub mod Buckets
pub mod Oldest
pub mod Cases
pub mod Working
pub mod Mirroring
pub mod Keeping
pub mod Syncing
pub mod Raising
pub mod Agents
pub mod Calls
pub mod Repeating
use inpockets.Base.{
  ℕ, zero, suc, ◌+◌, ◌-◌, max, ltb, leb, ◌==◌, Bool, true, false, not, ◌&&◌, ◌||◌, List, [], ◌∷◌,
  Option, none, some, if◌then◌else◌, keep,
}
use inpockets.Base.Int.{ℤ, pos, ◌+ℤ◌, ltb_ℤ, sum_ℤ}

-- The labels of `BUCKETS`.
pub data Bucket : Type 0 where
  days_1_7 days_8_30 days_31_60 days_61_90 days_91 : Bucket

-- The table `BUCKETS`, by the lowest number of days past due.
unfoldable pub buckets : List (ℕ × Bucket)
buckets = (1, days_1_7) ∷ (8, days_8_30) ∷ (31, days_31_60) ∷ (61, days_61_90) ∷ (91, days_91) ∷ []

-- The last bucket of the table that the days reach.
unfoldable pub last_reached : ℕ → List (ℕ × Bucket) → Option Bucket → Option Bucket
last_reached dpd [] label = label
last_reached dpd ((low, name) ∷ rest) label =
    last_reached dpd rest (if leb low dpd then some name else label)

unfoldable pub bucket_for : ℕ → Option Bucket
bucket_for dpd = if ltb dpd 1 then none else last_reached dpd buckets none

abbrev pub same_bucket : Bucket → Bucket → Bool
same_bucket days_1_7 days_1_7 = true
same_bucket days_8_30 days_8_30 = true
same_bucket days_31_60 days_31_60 = true
same_bucket days_61_90 days_61_90 = true
same_bucket days_91 days_91 = true
same_bucket _ _ = false

-- The lowest and the highest number of days of a bucket; the last one is open-ended.
unfoldable pub range_in : Bucket → List (ℕ × Bucket) → Option (ℕ × Option ℕ)
range_in label [] = none
range_in label ((low, name) ∷ []) = if same_bucket name label then some (low, none) else none
range_in label ((low, name) ∷ (next, other) ∷ rest) =
    let found = range_in label ((next, other) ∷ rest) in
    if same_bucket name label then some (low, some (next - 1)) else found

unfoldable pub bucket_range : Bucket → Option (ℕ × Option ℕ)
bucket_range label = range_in label buckets

pub record InstallmentView : Type 0 where
  pub id : ℕ
  pub number : ℕ
  pub due_date : ℕ
  pub principal_outstanding : ℤ
  pub interest_outstanding : ℤ
  pub fee_outstanding : ℤ

pub record Overdue : Type 0 where
  pub oldest_installment_id : ℕ
  pub oldest_due_date : ℕ
  pub dpd : ℕ
  pub principal : ℤ
  pub interest : ℤ
  pub fees : ℤ

-- Past due, with principal or interest unpaid.
abbrev pub is_late : ℕ → InstallmentView → Bool
is_late today i =
    ltb i.due_date today && ltb_ℤ (pos 0) (i.principal_outstanding +ℤ i.interest_outstanding)

-- The order of the keys `(i.due_date, i.number)`.
abbrev pub is_before : InstallmentView → InstallmentView → Bool
is_before i j = ltb i.due_date j.due_date || (i.due_date == j.due_date && ltb i.number j.number)

-- `min` with that key, which keeps the first of equal ones.
unfoldable pub oldest_of : InstallmentView → List InstallmentView → InstallmentView
oldest_of best [] = best
oldest_of best (i ∷ rest) = oldest_of (if is_before i best then i else best) rest

unfoldable pub overdue_among : ℕ → List InstallmentView → Option Overdue
overdue_among today [] = none
overdue_among today (i ∷ rest) =
    let oldest = oldest_of i rest in
    some (record {
      oldest_installment_id = oldest.id;
      oldest_due_date = oldest.due_date;
      dpd = today - oldest.due_date;
      principal = sum_ℤ (λ (j : InstallmentView). j.principal_outstanding) (i ∷ rest);
      interest = sum_ℤ (λ (j : InstallmentView). j.interest_outstanding) (i ∷ rest);
      fees = sum_ℤ (λ (j : InstallmentView). j.fee_outstanding) (i ∷ rest);
    })

unfoldable pub overdue_of : List InstallmentView → ℕ → Option Overdue
overdue_of installments today = overdue_among today (keep (is_late today) installments)

-- The keys of `REMINDER_MILESTONES`, and the thresholds of `ESCALATION_THRESHOLDS` by their level.
unfoldable pub reminder_milestones : List ℕ
reminder_milestones = 1 ∷ 3 ∷ 7 ∷ 15 ∷ 30 ∷ []

unfoldable pub escalation_thresholds : List (ℕ × ℕ)
escalation_thresholds = (1, 30) ∷ (2, 60) ∷ (3, 90) ∷ []

abbrev pub larger : ℕ → Option ℕ → Option ℕ
larger m none = some m
larger m (some n) = some (max m n)

-- The largest milestone that the days reach.
unfoldable pub largest_reached : ℕ → List ℕ → Option ℕ
largest_reached dpd [] = none
largest_reached dpd (m ∷ rest) =
    let others = largest_reached dpd rest in if leb m dpd then larger m others else others

unfoldable pub due_reminder_milestone : ℕ → Option ℕ
due_reminder_milestone dpd = largest_reached dpd reminder_milestones

unfoldable pub level_in : ℕ → List (ℕ × ℕ) → ℕ → ℕ
level_in dpd [] level = level
level_in dpd ((lvl, threshold) ∷ rest) level =
    level_in dpd rest (if leb threshold dpd then max level lvl else level)

unfoldable pub escalation_level_for : ℕ → ℕ
escalation_level_for dpd = level_in dpd escalation_thresholds 0
