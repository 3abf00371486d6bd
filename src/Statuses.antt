-- ===== src/Statuses.antt =====
-- The status machines of the payout, of the e-signature and of the check of a bank account
-- (app/domain/disbursement.py, app/domain/esign.py and app/domain/bank_verification.py), and what a
-- record can become by moves that a machine allows.
pub mod Disbursement
pub mod Esign
pub mod BankVerification
pub mod Finality
use inpockets.Base.{Bool, true, ◌≡◌}

-- The statuses that allowed moves lead to.
pub data Reaches (S : Type 0) (can : S → S → Bool) : S → S → Type 0 where
  here : {s : S} → Reaches S can s s
  by_move : {s t u : S} → can s t ≡ true → Reaches S can t u → Reaches S can s u
