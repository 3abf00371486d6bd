-- ===== src/Statuses/BankVerification.antt =====
-- The statuses of the check of a bank account (app/domain/bank_verification.py).
use inpockets.Base.{Bool, true, false}

pub data BankVerificationStatus : Type 0 where
  initiated pending verified failed manual_review : BankVerificationStatus

-- The table `TRANSITIONS`, and `can_transition`.
unfoldable pub can_transition : BankVerificationStatus → BankVerificationStatus → Bool
can_transition initiated pending = true
can_transition initiated verified = true
can_transition initiated failed = true
can_transition initiated manual_review = true
can_transition pending verified = true
can_transition pending failed = true
can_transition pending manual_review = true
can_transition manual_review verified = true
can_transition manual_review failed = true
can_transition _ _ = false

-- `IN_FLIGHT`
unfoldable pub is_in_flight : BankVerificationStatus → Bool
is_in_flight verified = false
is_in_flight failed = false
is_in_flight _ = true
