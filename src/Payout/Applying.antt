-- ===== src/Payout/Applying.antt =====
-- `_apply` of app/services/disbursement.py: what a report of the provider does to a payout.
use text.Mathlib.Text.{◌==◌ as str_eq}
use inpockets.Base.{
  ℕ, String, Bool, true, false, Option, none, some, if◌then◌else◌, Result, ok, err, ◌>>=◌,
}
use inpockets.Base.Int.{ℤ}
use inpockets.Ledger.{Payload}
use inpockets.Ledger.Tables.{Books}
use inpockets.Repayment.Payments.Applying.{present, differs, takes_ref}
use inpockets.Statuses.Disbursement.{
  DisbursementStatus, pending, success, failed, reversed, requires_review,
}
use inpockets.Payout.{
  PayoutFailure, payout_failure, PayoutSays, says_processing, says_success, says_failed,
  says_reversed, says_other, provider_ref_mismatch, amount_mismatch, late_success_after_failure,
  unexpected_report_before_dispatch, success_without_provider_ref, unexpected_provider_status,
  PayoutOutcome, was_processing, was_success, was_failed, was_reversed, duplicate_success,
  ignored_terminal, amount_mismatch_ignored, ignored_after_success, ignored_after_failure,
  ignored_in_review, conflict_ignored, payout_failed, Payout, PayoutDesk, PayoutError,
  integrity_error, same_payout_status, move_payout, note, flush, review_payout, pay, take_back,
}

-- The keyword arguments of `_apply`, but `from_review`.
pub record PayoutReport : Type 0 where
  pub status : PayoutSays
  pub provider_ref : Option String
  pub utr : Option String
  pub amount : Option ℤ
  pub failure_code : Option PayoutFailure

-- The payout with the reported reference; `none` where it has another one already.
unfoldable pub attach_payout_ref : Option String → Payout → Option Payout
attach_payout_ref none p = some p
attach_payout_ref (some ref) p = elim p.provider_ref [
  | none ↦ some (record p { provider_ref = some ref })
  | some held ↦ if str_eq held ref then some p else none
]

-- The move to `FAILED`.
unfoldable pub fail_payout :
    Option PayoutFailure → PayoutDesk → Result PayoutError (PayoutOutcome × PayoutDesk)
fail_payout code d = move_payout d.payout failed (some (payout_failure code)) >>= λ p.
    flush (record d { payout = record p { review_reason = none } }) >>= λ d'.
    ok (was_failed, note payout_failed d')

-- `if d.provider_ref is None: return await self._review(...)`
unfoldable pub if_paid_by_ref :
    Option String
    → PayoutDesk
    → Result PayoutError (PayoutOutcome × PayoutDesk)
    → Result PayoutError (PayoutOutcome × PayoutDesk)
if_paid_by_ref none d rest = review_payout success_without_provider_ref d
if_paid_by_ref (some _) d rest = rest

module _ (sha256 : Payload → ℕ) (others : Books → Books) where
  -- The end of `_apply`: the payout is with the provider, or rechecked from review.
  unfoldable pub apply_dispatched :
      PayoutSays → PayoutReport → PayoutDesk → Result PayoutError (PayoutOutcome × PayoutDesk)
  apply_dispatched says_processing r d = ok (was_processing, d)
  apply_dispatched says_failed r d = fail_payout r.failure_code d
  apply_dispatched says_success r d =
      if_paid_by_ref d.payout.provider_ref d
        (pay sha256 others r.utr d >>= λ d'. ok (was_success, d'))
  apply_dispatched says_reversed r d = if_paid_by_ref d.payout.provider_ref d (
      pay sha256 others r.utr d >>= λ d'.
      take_back sha256 others d' >>= λ d''. ok (was_reversed, d''))
  apply_dispatched says_other r d = review_payout unexpected_provider_status d

  -- By the status that the payout has, once the reference and the amount agree.
  unfoldable pub apply_by_status :
      DisbursementStatus
      → PayoutSays
      → PayoutReport
      → Bool
      → PayoutDesk
      → Result PayoutError (PayoutOutcome × PayoutDesk)
  apply_by_status success says_success r v d = ok (duplicate_success, d)
  apply_by_status success says_reversed r v d =
      take_back sha256 others d >>= λ d'. ok (was_reversed, d')
  apply_by_status success _ r v d = ok (ignored_after_success, note conflict_ignored d)
  apply_by_status failed says_success r v d = review_payout late_success_after_failure d
  apply_by_status failed says_reversed r v d = review_payout late_success_after_failure d
  apply_by_status failed _ r v d = ok (ignored_after_failure, d)
  apply_by_status requires_review says r false d = ok (ignored_in_review, d)
  apply_by_status requires_review says r true d = apply_dispatched says r d
  apply_by_status pending says r v d = review_payout unexpected_report_before_dispatch d
  apply_by_status _ says r v d = apply_dispatched says r d

  -- The status before anything is changed decides.
  unfoldable pub apply_matching :
      DisbursementStatus
      → PayoutReport
      → Bool
      → PayoutDesk
      → Result PayoutError (PayoutOutcome × PayoutDesk)
  apply_matching current r from_review d =
      if same_payout_status current reversed
      then ok (ignored_terminal, d)
      else if differs r.amount d.payout.amount
      then (if same_payout_status current success
          then ok (amount_mismatch_ignored, note conflict_ignored d)
          else review_payout amount_mismatch d)
      else apply_by_status current r.status r from_review d

  -- With the payout that has the reported reference, or without one.
  unfoldable pub apply_with :
      Option Payout
      → PayoutReport
      → Bool
      → PayoutDesk
      → Result PayoutError (PayoutOutcome × PayoutDesk)
  apply_with (some p) r from_review d =
      apply_matching d.payout.status r from_review (record d { payout = p })
  apply_with none r from_review d =
      if same_payout_status d.payout.status success
      then ok (ignored_terminal, note conflict_ignored d)
      else if same_payout_status d.payout.status reversed
      then ok (ignored_terminal, note conflict_ignored d)
      else review_payout provider_ref_mismatch d

  -- `_apply`. The index `uq_disbursement_provider_ref` refuses the reference of another payout at
  -- the next flush, at the latest at the commit.
  unfoldable pub apply_payout :
      PayoutReport → Bool → PayoutDesk → Result PayoutError (PayoutOutcome × PayoutDesk)
  apply_payout r from_review d =
      let ref = present r.provider_ref in
      if takes_ref ref d.payout.provider_ref d.refs_of_others
      then err integrity_error
      else apply_with (attach_payout_ref ref d.payout) r from_review d
