-- ===== src/Repayment.antt =====
-- Rules of repayment (app/domain/repayment.py): the statuses and their transitions. The children
-- hold the schedule, the allocation of a payment and the proofs. Amounts are integers of paise, and
-- a date is the number of its day.
pub mod Schedule
pub mod Allocation
pub mod Waterfall
pub mod Order
pub mod Splitting
pub mod Payments
pub mod Settling
pub mod Lifecycle
pub mod Following
pub mod Settlement
pub mod Balancing
pub mod Initiation
use inpockets.Base.{ℕ, ltb, leb, ◌==◌, String, Bool, true, false, List, [], ◌∷◌, if◌then◌else◌}
use inpockets.Base.Int.{ℤ, pos, ◌+ℤ◌, ◌-ℤ◌, eqb_ℤ}

pub data PaymentStatus : Type 0 where
  initiated pending success failed reversed requires_review : PaymentStatus

-- The table `TRANSITIONS`, and `can_transition`.
unfoldable pub can_transition : PaymentStatus → PaymentStatus → Bool
can_transition initiated pending = true
can_transition initiated success = true
can_transition initiated failed = true
can_transition initiated requires_review = true
can_transition pending success = true
can_transition pending failed = true
can_transition pending requires_review = true
can_transition success reversed = true
can_transition failed requires_review = true
can_transition requires_review success = true
can_transition requires_review failed = true
can_transition _ _ = false

-- `OPEN_STATUSES`
unfoldable pub is_open : PaymentStatus → Bool
is_open initiated = true
is_open pending = true
is_open requires_review = true
is_open _ = false

pub data CustomerStatus : Type 0 where
  processing paid not_paid returned : CustomerStatus

-- The table `CUSTOMER_STATUS`; `not_paid` and `returned` are its `FAILED` and `REVERSED`.
unfoldable pub customer_status : PaymentStatus → CustomerStatus
customer_status initiated = processing
customer_status pending = processing
customer_status requires_review = processing
customer_status success = paid
customer_status failed = not_paid
customer_status reversed = returned

pub data InstallmentStatus : Type 0 where
  scheduled partially_paid fully_paid : InstallmentStatus

-- An installment, as `allocate` reads it.
pub record InstallmentState : Type 0 where
  pub id : ℕ
  pub number : ℕ
  pub due_date : ℕ
  pub principal_due : ℤ
  pub interest_due : ℤ
  pub fee_due : ℤ
  pub principal_paid : ℤ
  pub interest_paid : ℤ
  pub fee_paid : ℤ

abbrev pub outstanding : InstallmentState → ℤ
outstanding i =
    (i.principal_due -ℤ i.principal_paid)
    +ℤ (i.interest_due -ℤ i.interest_paid)
    +ℤ (i.fee_due -ℤ i.fee_paid)

unfoldable pub stored_status : InstallmentState → InstallmentStatus
stored_status i =
    if eqb_ℤ (outstanding i) (pos 0)
    then fully_paid
    else if eqb_ℤ (i.principal_paid +ℤ i.interest_paid +ℤ i.fee_paid) (pos 0)
    then scheduled
    else partially_paid

pub data EffectiveStatus : Type 0 where
  stored : InstallmentStatus → EffectiveStatus
  overdue : EffectiveStatus

abbrev pub is_fully_paid : InstallmentStatus → Bool
is_fully_paid fully_paid = true
is_fully_paid _ = false

unfoldable pub effective_status : InstallmentStatus → ℕ → ℕ → EffectiveStatus
effective_status fully_paid due_date today = stored fully_paid
effective_status status due_date today = if ltb due_date today then overdue else stored status
