-- ===== src/Payout.antt =====
-- Payouts (app/services/disbursement.py): the state of one payout under its lock, its moves, and what
-- they post to the ledger. The children hold what a report of the provider does, the callers, the
-- creation of payouts and the proofs. Time stamps are left out but for those that are read again; of
-- an audit entry its action is kept.
pub mod Applying
pub mod Submitting
pub mod Soundness
pub mod Moving
pub mod Paying
pub mod Following
pub mod Calling
pub mod Calls
pub mod Running
pub mod Answering
pub mod Resolving
pub mod Late
pub mod Creating
pub mod Numbering
pub mod Ordering
pub mod Retrying
use inpockets.Base.{
  ℕ, ◌+◌, ◌==◌, String, Bool, true, false, not, ◌&&◌, List, [], ◌∷◌, ◌++◌, Option, none, some,
  if◌then◌else◌, Result, ok, err, raise_if, ◌>>=◌, ◌>>◌,
}
use inpockets.Base.Int.{ℤ}
use inpockets.Ledger.{LedgerError, Payload}
use inpockets.Ledger.Tables.{Books}
use inpockets.Ledger.Business.{Source, Snapshot, post_disbursement, reverse_disbursement}
use inpockets.Statuses.Disbursement.{
  DisbursementStatus, pending, processing, success, failed, reversed, requires_review,
  can_transition, is_live,
}

-- `FAILURE_CODES`; `unlisted` is any other text.
pub data PayoutFailure : Type 0 where
  provider_rejected invalid_beneficiary insufficient_funds bank_declined : PayoutFailure
  provider_failed provider_not_found unlisted : PayoutFailure

-- `_failure`
unfoldable pub payout_failure : Option PayoutFailure → PayoutFailure
payout_failure none = provider_failed
payout_failure (some unlisted) = provider_failed
payout_failure (some code) = code

pub data PayoutReason : Type 0 where
  provider_ref_mismatch amount_mismatch late_success_after_failure : PayoutReason
  unexpected_report_before_dispatch success_without_provider_ref : PayoutReason
  unexpected_provider_status beneficiary_unavailable provider_unresolved : PayoutReason
  provider_ref_not_found unresolved_too_long retry_blocked : PayoutReason

-- The status that the provider reports; `says_other` is any other text.
pub data PayoutSays : Type 0 where
  says_processing says_success says_failed says_reversed says_other : PayoutSays

-- The texts that the service returns.
pub data PayoutOutcome : Type 0 where
  was_processing was_success was_failed was_reversed duplicate_success : PayoutOutcome
  ignored_terminal amount_mismatch_ignored ignored_after_success : PayoutOutcome
  ignored_after_failure ignored_in_review skipped unknown duplicate not_found_yet : PayoutOutcome
  in_review : PayoutReason → PayoutOutcome

pub data PayoutAction : Type 0 where
  conflict_ignored payout_reversed payout_failed payout_success payout_in_review : PayoutAction
  provider_timeout poll_timeout payout_processing payout_rechecked : PayoutAction

-- The columns of a payout that the service reads or writes here.
pub record Payout : Type 0 where
  pub id : ℕ
  pub user_id : ℕ
  pub loan_offer_id : ℕ
  pub amount : ℤ
  pub status : DisbursementStatus
  pub attempt : ℕ
  pub provider_ref : Option String
  pub utr : Option String
  pub failure_code : Option PayoutFailure
  pub review_reason : Option PayoutReason
  pub dispatch_attempts : ℕ
  pub requested_at : ℕ
  pub dispatched_at : Option ℕ

-- One payout under its lock, with the frozen pricing of its offer, the ledger, the audit log, and
-- whether another payout of the offer is live in the table; and the references that other payouts
-- have at the provider.
pub record PayoutDesk : Type 0 where
  pub payout : Payout
  pub pricing : Option Snapshot
  pub books : Books
  pub audit : List PayoutAction
  pub another_live : Bool
  pub refs_of_others : List String

-- A forbidden move, a violated index of the table, or an error of the ledger.
pub data PayoutError : Type 0 where
  invalid_transition integrity_error : PayoutError
  ledger : LedgerError → PayoutError

abbrev pub same_payout_status : DisbursementStatus → DisbursementStatus → Bool
same_payout_status pending pending = true
same_payout_status processing processing = true
same_payout_status success success = true
same_payout_status failed failed = true
same_payout_status reversed reversed = true
same_payout_status requires_review requires_review = true
same_payout_status _ _ = false

unfoldable pub moved_payout : Payout → DisbursementStatus → Option PayoutFailure → Payout
moved_payout p new none = record p { status = new }
moved_payout p new (some code) = record p { status = new; failure_code = some code }

-- `_move`
unfoldable pub move_payout :
    Payout → DisbursementStatus → Option PayoutFailure → Result PayoutError Payout
move_payout p new code =
    if same_payout_status p.status new
    then ok p
    else if not (can_transition p.status new)
    then err invalid_transition
    else ok (moved_payout p new code)

abbrev pub note : PayoutAction → PayoutDesk → PayoutDesk
note action d = record d { audit = d.audit ++ action ∷ [] }

-- `session.flush()`: the index `uq_disbursement_one_live_per_offer` refuses a second live row. The index
-- on provider references is tested where a reference is attached, in `apply_payout`; the CHECKs on
-- columns say what the code has just set or tested.
unfoldable pub flush : PayoutDesk → Result PayoutError PayoutDesk
flush d = if is_live d.payout.status && d.another_live then err integrity_error else ok d

-- `_review`
unfoldable pub review_payout :
    PayoutReason → PayoutDesk → Result PayoutError (PayoutOutcome × PayoutDesk)
review_payout reason d =
    if same_payout_status d.payout.status requires_review
    then ok (in_review reason, d)
    else move_payout d.payout requires_review none >>= λ p.
        flush (record d { payout = record p { review_reason = some reason } }) >>= λ d'.
        ok (in_review reason, note payout_in_review d')

abbrev pub source_of_payout : Payout → Source
source_of_payout p = record {
  id = p.id;
  loan_offer_id = p.loan_offer_id;
  user_id = p.user_id;
  amount = p.amount;
}

abbrev pub lift_ledger_error : {A : Type 0} → Result LedgerError A → Result PayoutError A
lift_ledger_error (ok a) = ok a
lift_ledger_error (err e) = err (ledger e)

module _ (sha256 : Payload → ℕ) (others : Books → Books) where
  -- The posting of a payout that is paid, in the same transaction of the database.
  unfoldable pub book_payout : PayoutDesk → Result PayoutError PayoutDesk
  book_payout d =
      lift_ledger_error
        (post_disbursement sha256 others (source_of_payout d.payout) d.pricing d.books)
      >>= λ posted. ok (note payout_success (record d { books = posted.1 }))

  -- `SUCCESS` is reported: the move, and the books with it.
  unfoldable pub pay : Option String → PayoutDesk → Result PayoutError PayoutDesk
  pay utr d = move_payout d.payout success none >>= λ p.
      flush (record d { payout = record p { utr = utr; review_reason = none } }) >>= book_payout

  -- The mirror posting of a payout that came back.
  unfoldable pub unbook_payout : PayoutDesk → Result PayoutError PayoutDesk
  unbook_payout d =
      lift_ledger_error (reverse_disbursement sha256 others (source_of_payout d.payout) d.books)
      >>= λ posted. ok (note payout_reversed (record d { books = posted.1 }))

  -- `REVERSED` is reported of a payout that is paid.
  unfoldable pub take_back : PayoutDesk → Result PayoutError PayoutDesk
  take_back d =
      move_payout d.payout reversed none >>= λ p. flush (record d { payout = p }) >>= unbook_payout
