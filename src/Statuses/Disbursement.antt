-- ===== src/Statuses/Disbursement.antt =====
-- The statuses of a payout (app/domain/disbursement.py).
use inpockets.Base.{Bool, true, false}

pub data DisbursementStatus : Type 0 where
  pending processing success failed reversed requires_review : DisbursementStatus

-- The table `TRANSITIONS`, and `can_transition`.
unfoldable pub can_transition : DisbursementStatus → DisbursementStatus → Bool
can_transition pending processing = true
can_transition pending failed = true
can_transition pending requires_review = true
can_transition processing success = true
can_transition processing failed = true
can_transition processing requires_review = true
can_transition success reversed = true
can_transition failed requires_review = true
can_transition requires_review success = true
can_transition requires_review failed = true
can_transition _ _ = false

-- `LIVE_STATUSES`
unfoldable pub is_live : DisbursementStatus → Bool
is_live failed = false
is_live reversed = false
is_live _ = true

pub data CustomerStatus : Type 0 where
  in_progress disbursed not_paid returned : CustomerStatus

-- The table `CUSTOMER_STATUS`; `in_progress`, `not_paid` and `returned` are its `PROCESSING`,
-- `FAILED` and `REVERSED`.
unfoldable pub customer_status : DisbursementStatus → CustomerStatus
customer_status pending = in_progress
customer_status processing = in_progress
customer_status requires_review = in_progress
customer_status success = disbursed
customer_status failed = not_paid
customer_status reversed = returned
