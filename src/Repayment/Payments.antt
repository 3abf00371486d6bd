-- ===== src/Repayment/Payments.antt =====
-- The payments of the repayment service (app/services/repayment.py): applying what the provider
-- reports, settling, reversing and reviewing. The caller holds the locks of the schedule and of the
-- payment, so the state is one payment with the rows of its schedule. Time stamps and the texts of
-- the audit log are left out; of an audit entry its action is kept.
pub mod Applying
pub mod Callers
pub mod Initiating
use text.Mathlib.Text.{◌==◌ as str_eq}
use inpockets.Base.{
  ℕ, zero, suc, ◌+◌, ltb, leb, ◌==◌, String, Bool, true, false, not, ◌&&◌, ◌||◌, List, [], ◌∷◌,
  ◌++◌, map, Option, none, some, if◌then◌else◌, Result, ok, err, raise_if, ◌>>=◌, ◌>>◌,
}
use inpockets.Base.Int.{ℤ, pos, ◌+ℤ◌, ◌-ℤ◌, eqb_ℤ, ltb_ℤ, sum_ℤ}
use inpockets.Ledger.{LedgerError, Payload}
use inpockets.Ledger.Tables.{Books}
use inpockets.Ledger.Business.{Source, post_repayment, reverse_repayment}
use inpockets.Repayment.{
  PaymentStatus, initiated, pending, success, failed, reversed, requires_review, can_transition,
  InstallmentState, InstallmentStatus, stored_status,
}
use inpockets.Repayment.Allocation.{Allocation, allocate}

pub data FailureCode : Type 0 where
  provider_rejected insufficient_funds bank_declined expired cancelled provider_failed : FailureCode
  provider_not_found : FailureCode
  unlisted : FailureCode

-- `_failure`: a code outside `FAILURE_CODES`, or none, becomes `PROVIDER_FAILED`.
unfoldable pub failure : Option FailureCode → FailureCode
failure none = provider_failed
failure (some unlisted) = provider_failed
failure (some code) = code

pub data ReviewReason : Type 0 where
  provider_ref_mismatch amount_mismatch late_success_after_failure : ReviewReason
  success_without_provider_ref unexpected_provider_status : ReviewReason
  provider_ref_not_found unresolved_too_long : ReviewReason

-- The status that the provider reports; `says_other` is a text outside `PROVIDER_STATUSES`.
pub data Reported : Type 0 where
  says_pending says_success says_failed says_reversed says_other : Reported

-- The texts that the service returns.
pub data Outcome : Type 0 where
  was_pending was_success was_failed was_reversed duplicate_success : Outcome
  ignored_terminal amount_mismatch_ignored ignored_after_success ignored_after_failure : Outcome
  ignored_in_review skipped unknown duplicate not_found_yet : Outcome
  in_review : ReviewReason → Outcome

pub data AuditAction : Type 0 where
  conflict_ignored payment_pending payment_failed payment_success unapplied_receipt : AuditAction
  payment_reversed payment_in_review provider_timeout poll_timeout rechecked : AuditAction

pub record Payment : Type 0 where
  pub id : ℕ
  pub user_id : ℕ
  pub loan_offer_id : ℕ
  pub amount : ℤ
  pub status : PaymentStatus
  pub provider_ref : Option String
  pub failure_code : Option FailureCode
  pub review_reason : Option ReviewReason
  pub checkout_url : Option String
  pub principal_applied : ℤ
  pub interest_applied : ℤ
  pub fee_applied : ℤ
  pub unapplied_amount : ℤ
  pub dispatch_attempts : ℕ
  pub requested_at : ℕ

pub record InstallmentRow : Type 0 where
  pub state : InstallmentState
  pub status : InstallmentStatus

-- The payment, the installments of its schedule, its allocations, the ledger and the audit log, and
-- the references that other payments have at the provider.
pub record Desk : Type 0 where
  pub payment : Payment
  pub rows : List InstallmentRow
  pub allocations : List Allocation
  pub books : Books
  pub audit : List AuditAction
  pub refs_of_others : List String

-- A forbidden move, a violated index of the table, or an error of the ledger.
pub data RepaymentError : Type 0 where
  invalid_transition integrity_error : RepaymentError
  ledger : LedgerError → RepaymentError

abbrev pub same_status : PaymentStatus → PaymentStatus → Bool
same_status initiated initiated = true
same_status pending pending = true
same_status success success = true
same_status failed failed = true
same_status reversed reversed = true
same_status requires_review requires_review = true
same_status _ _ = false

unfoldable pub moved : Payment → PaymentStatus → Option FailureCode → Payment
moved p new none = record p { status = new }
moved p new (some code) = record p { status = new; failure_code = some code }

-- `_move`
unfoldable pub move : Payment → PaymentStatus → Option FailureCode → Result RepaymentError Payment
move p new code =
    if same_status p.status new
    then ok p
    else if not (can_transition p.status new)
    then err invalid_transition
    else ok (moved p new code)

abbrev pub log : AuditAction → Desk → Desk
log action d = record d { audit = d.audit ++ action ∷ [] }

-- What `_settle` adds to the row of an installment, and what `_reverse` takes away again.
unfoldable pub credit_row : Allocation → InstallmentRow → InstallmentRow
credit_row a row =
    let i = row.state in
    let paid = record i {
      fee_paid = i.fee_paid +ℤ a.fee;
      interest_paid = i.interest_paid +ℤ a.interest;
      principal_paid = i.principal_paid +ℤ a.principal;
    } in
    if i.id == a.installment_id then record { state = paid; status = stored_status paid } else row

unfoldable pub debit_row : Allocation → InstallmentRow → InstallmentRow
debit_row a row =
    let i = row.state in
    let paid = record i {
      fee_paid = i.fee_paid -ℤ a.fee;
      interest_paid = i.interest_paid -ℤ a.interest;
      principal_paid = i.principal_paid -ℤ a.principal;
    } in
    if i.id == a.installment_id then record { state = paid; status = stored_status paid } else row

-- The loops over the allocations.
unfoldable pub credit_rows : List Allocation → List InstallmentRow → List InstallmentRow
credit_rows [] rows = rows
credit_rows (a ∷ rest) rows = credit_rows rest (map (credit_row a) rows)

unfoldable pub debit_rows : List Allocation → List InstallmentRow → List InstallmentRow
debit_rows [] rows = rows
debit_rows (a ∷ rest) rows = debit_rows rest (map (debit_row a) rows)

abbrev pub lift_ledger : {A : Type 0} → Result LedgerError A → Result RepaymentError A
lift_ledger (ok a) = ok a
lift_ledger (err e) = err (ledger e)

abbrev pub source_of : Payment → Source
source_of p = record {
  id = p.id;
  loan_offer_id = p.loan_offer_id;
  user_id = p.user_id;
  amount = p.amount;
}

-- `_review`
unfoldable pub review : ReviewReason → Desk → Result RepaymentError (Outcome × Desk)
review reason d =
    if same_status d.payment.status requires_review then ok (in_review reason, d) else (do
      p ← move d.payment requires_review none
      ok (
        in_review reason,
        log payment_in_review (record d { payment = record p { review_reason = some reason } }),
      ))

-- The payment with the amounts that were applied to each part.
unfoldable pub applied_payment : Payment → List Allocation × ℤ → Payment
applied_payment p (allocations, unapplied) = record p {
  principal_applied = sum_ℤ (λ (a : Allocation). a.principal) allocations;
  interest_applied = sum_ℤ (λ (a : Allocation). a.interest) allocations;
  fee_applied = sum_ℤ (λ (a : Allocation). a.fee) allocations;
  unapplied_amount = unapplied;
}

-- The desk after a settlement that the ledger has posted.
unfoldable pub settled_desk : List Allocation → Desk → Payment → Books → Desk
settled_desk allocations d p books =
    let settled : Desk = record d {
      payment = record p { review_reason = none };
      rows = credit_rows allocations d.rows;
      allocations = d.allocations ++ allocations;
      books = books;
      audit = d.audit ++ payment_success ∷ [];
    } in
    if ltb_ℤ (pos 0) p.unapplied_amount then log unapplied_receipt settled else settled

unfoldable pub reversed_desk : Desk → Payment → Books → Desk
reversed_desk d p books =
    log payment_reversed
      (record d { payment = p; rows = debit_rows d.allocations d.rows; books = books })

module _ (sha256 : Payload → ℕ) (others : Books → Books) where
  -- The posting of a settlement, in the database transaction of the caller.
  unfoldable pub post_settlement : List Allocation → Desk → Payment → Result RepaymentError Desk
  post_settlement allocations d p =
      lift_ledger (
        post_repayment sha256 others (source_of p) p.principal_applied p.interest_applied
          p.fee_applied p.unapplied_amount d.books)
      >>= λ (_, books). ok (settled_desk allocations d p books)

  -- `_settle`
  unfoldable pub settle : Desk → Result RepaymentError Desk
  settle d =
      let allocated = allocate (map (λ (r : InstallmentRow). r.state) d.rows) d.payment.amount in
      move (applied_payment d.payment allocated) success none >>= post_settlement allocated.0 d

  -- The mirror posting of a reversal.
  unfoldable pub post_reversal : Desk → Payment → Result RepaymentError Desk
  post_reversal d p =
      lift_ledger (reverse_repayment sha256 others (source_of p) d.books) >>= λ (_, books).
      ok (reversed_desk d p books)

  -- `_reverse`
  unfoldable pub reverse_payment : Desk → Result RepaymentError Desk
  reverse_payment d = move d.payment reversed none >>= post_reversal d
