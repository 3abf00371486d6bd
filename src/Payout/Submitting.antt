-- ===== src/Payout/Submitting.antt =====
-- The callers of `_apply` (`_submit`, `submit_claimed`, `reconcile_one`, `handle_webhook` and
-- `recheck` of app/services/disbursement.py). What the provider and the other services answer is an
-- argument. The desk is the state under the lock of the payout.
use inpockets.Base.{
  ℕ, ◌+◌, ◌-◌, leb, String, Bool, true, false, not, ◌||◌, List, [], ◌∷◌, ◌++◌, Option, none, some,
  if◌then◌else◌, Result, ok, err, ◌>>=◌,
}
use inpockets.Ledger.{Payload}
use inpockets.Ledger.Tables.{Books}
use inpockets.Repayment.Payments.Callers.{seen}
use inpockets.Statuses.Disbursement.{pending, processing, failed, requires_review}
use inpockets.Payout.{
  PayoutFailure, payout_failure, provider_not_found, says_failed, beneficiary_unavailable,
  provider_unresolved, provider_ref_not_found, unresolved_too_long, PayoutOutcome, was_processing,
  was_failed, payout_failed, skipped, unknown, duplicate, not_found_yet, provider_timeout,
  poll_timeout, payout_processing, payout_rechecked, Payout, PayoutDesk, PayoutError,
  same_payout_status, move_payout, note, flush, review_payout,
}
use inpockets.Payout.Applying.{PayoutReport, apply_payout}

-- What `provider.submit` gives.
pub data PayoutAnswer : Type 0 where
  report : PayoutReport → PayoutAnswer
  timeout : PayoutAnswer
  rejected : Option PayoutFailure → PayoutAnswer

-- What `provider.get_status` gives.
pub data PayoutLookup : Type 0 where
  found : PayoutReport → PayoutLookup
  not_found unreachable : PayoutLookup

pub data RecheckError : Type 0 where
  failed_with : PayoutError → RecheckError
  unresolved_only unavailable : RecheckError

abbrev pub has_ref : Option String → Bool
has_ref none = false
has_ref (some _) = true

-- `d.dispatched_at or d.requested_at`
abbrev pub sent_at : Payout → ℕ
sent_at p = elim p.dispatched_at [ none ↦ p.requested_at | some t ↦ t ]

-- What `recheck` applies where the provider does not know the payout.
abbrev pub gone : PayoutReport
gone = record {
  status = says_failed;
  provider_ref = none;
  utr = none;
  amount = none;
  failure_code = some provider_not_found;
}

abbrev pub lift_recheck : {A : Type 0} → Result PayoutError A → Result RecheckError A
lift_recheck (ok a) = ok a
lift_recheck (err e) = err (failed_with e)

module _ (sha256 : Payload → ℕ) (others : Books → Books) where
  -- `claim_pending`, for one row of the batch.
  unfoldable pub claim : ℕ → PayoutDesk → Result PayoutError (PayoutOutcome × PayoutDesk)
  claim now d =
      if not (same_payout_status d.payout.status pending)
      then ok (skipped, d)
      else move_payout d.payout processing none >>= λ p.
          flush (
            note payout_processing (record d {
              payout = record p {
                dispatched_at = some now;
                dispatch_attempts = p.dispatch_attempts + 1;
              };
            }))
          >>= λ d'. ok (was_processing, d')

  -- `_submit`; the flag says whether the account can be revealed and the customer has both names.
  unfoldable pub submit :
      Bool → PayoutAnswer → PayoutDesk → Result PayoutError (PayoutOutcome × PayoutDesk)
  submit false answer d = review_payout beneficiary_unavailable d
  submit true timeout d = ok (unknown, note provider_timeout d)
  submit true (rejected code) d = move_payout d.payout failed (some (payout_failure code)) >>= λ p.
      flush (record d { payout = p }) >>= λ d'. ok (was_failed, note payout_failed d')
  submit true (report r) d = apply_payout sha256 others (record r { amount = none }) false d

  -- `submit_claimed`, where the row could be locked.
  unfoldable pub submit_claimed :
      Bool → PayoutAnswer → PayoutDesk → Result PayoutError (PayoutOutcome × PayoutDesk)
  submit_claimed beneficiary answer d =
      let sent = submit beneficiary answer d in
      if not (same_payout_status d.payout.status processing) || has_ref d.payout.provider_ref
      then ok (skipped, d)
      else sent

  -- The end of `reconcile_one`: a payout that stays with the provider for too long.
  unfoldable pub too_long :
      Bool → PayoutOutcome × PayoutDesk → Result PayoutError (PayoutOutcome × PayoutDesk)
  too_long true (was_processing, d) = review_payout unresolved_too_long d
  too_long too_old (outcome, d) = ok (outcome, d)

  -- The provider does not know the payout.
  unfoldable pub submit_again :
      Option String
      → Bool
      → PayoutAnswer
      → PayoutDesk
      → Result PayoutError (PayoutOutcome × PayoutDesk)
  submit_again (some _) beneficiary answer d = review_payout provider_ref_not_found d
  submit_again none beneficiary answer d =
      let p = d.payout in
      submit beneficiary answer
        (record d { payout = record p { dispatch_attempts = p.dispatch_attempts + 1 } })

  -- The answer to the poll.
  unfoldable pub polled :
      Bool
      → PayoutLookup
      → Bool
      → PayoutAnswer
      → PayoutDesk
      → Result PayoutError (PayoutOutcome × PayoutDesk)
  polled true unreachable beneficiary answer d =
      review_payout provider_unresolved (note poll_timeout d)
  polled false unreachable beneficiary answer d = ok (unknown, note poll_timeout d)
  polled too_old not_found beneficiary answer d =
      submit_again d.payout.provider_ref beneficiary answer d
  polled too_old (found r) beneficiary answer d =
      apply_payout sha256 others r false d >>= too_long too_old

  -- `reconcile_one`, where the row could be locked; the limit of the age is in the same unit as the
  -- times.
  unfoldable pub reconcile_payout :
      ℕ
      → ℕ
      → PayoutLookup
      → Bool
      → PayoutAnswer
      → PayoutDesk
      → Result PayoutError (PayoutOutcome × PayoutDesk)
  reconcile_payout now limit lookup beneficiary answer d =
      let result = polled (leb limit (now - sent_at d.payout)) lookup beneficiary answer d in
      if not (same_payout_status d.payout.status processing) then ok (skipped, d) else result

  -- `handle_webhook`, with the payout that the callback names: an event of the provider is applied
  -- once. An error rolls the new event back.
  unfoldable pub handle_payout_webhook :
      String
      → PayoutReport
      → List String × PayoutDesk
      → Result PayoutError (PayoutOutcome × (List String × PayoutDesk))
  handle_payout_webhook event r (events, d) =
      let applied = apply_payout sha256 others r false d >>= λ (outcome, d').
      ok (outcome, (events ++ event ∷ [], d')) in
      if seen event events then ok (duplicate, (events, d)) else applied

  -- The answer to a recheck.
  unfoldable pub rechecked :
      PayoutLookup → PayoutDesk → Result RecheckError (PayoutOutcome × PayoutDesk)
  rechecked unreachable d = err unavailable
  rechecked not_found d =
      let failing = lift_recheck (apply_payout sha256 others gone true d) in
      if same_payout_status d.payout.status requires_review then failing else ok (not_found_yet, d)
  rechecked (found r) d =
      lift_recheck
        (apply_payout sha256 others r (same_payout_status d.payout.status requires_review) d)

  -- `recheck`, by an admin who may execute payouts.
  unfoldable pub recheck_payout :
      PayoutLookup → PayoutDesk → Result RecheckError (PayoutOutcome × PayoutDesk)
  recheck_payout lookup d =
      let asked = rechecked lookup d >>= λ (outcome, d'). ok (outcome, note payout_rechecked d') in
      if not (
        same_payout_status d.payout.status processing
        || same_payout_status d.payout.status requires_review)
      then err unresolved_only
      else asked
