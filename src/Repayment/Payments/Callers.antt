-- ===== src/Repayment/Payments/Callers.antt =====
-- The callers of `_apply` (`dispatch_payment`, `handle_webhook`, `reconcile_one`, `_maybe_too_old`
-- and `recheck` of app/services/repayment.py). What the provider answers is an argument. The desk is
-- the state under the locks; the status read before them is an argument of its own.
use text.Mathlib.Text.{◌==◌ as str_eq}
use inpockets.Base.{
  ℕ, ◌+◌, ◌-◌, leb, String, Bool, true, false, not, ◌&&◌, ◌||◌, List, [], ◌∷◌, ◌++◌, Option, none,
  some, if◌then◌else◌, Result, ok, err, ◌>>=◌,
}
use inpockets.Ledger.{Payload}
use inpockets.Ledger.Tables.{Books}
use inpockets.Repayment.{PaymentStatus, initiated, pending, failed, requires_review}
use inpockets.Repayment.Payments.{
  says_failed, FailureCode, failure, provider_not_found, provider_ref_not_found,
  unresolved_too_long, Outcome, was_pending, was_failed, skipped, unknown, duplicate, not_found_yet,
  provider_timeout, poll_timeout, payment_failed, rechecked, Desk, RepaymentError, same_status,
  move, log, review,
}
use inpockets.Repayment.Payments.Applying.{Report, apply}

-- What a call of the provider gives: a report, a timeout, or a rejection with its code.
pub data Answer : Type 0 where
  report : Report → Answer
  timeout : Answer
  rejected : Option FailureCode → Answer

-- What a look-up at the provider gives.
pub data Lookup : Type 0 where
  found : Report → Lookup
  not_found : Lookup
  unreachable : Lookup

pub data CallError : Type 0 where
  failed_with : RepaymentError → CallError
  unresolved_only unavailable : CallError

-- The callbacks and the look-ups of a status carry no address for a checkout.
abbrev pub no_checkout : Report → Report
no_checkout r = record r { checkout_url = none }

-- The unique ids of the provider's events.
abbrev pub seen : String → List String → Bool
seen e [] = false
seen e (f ∷ rest) = str_eq e f || seen e rest

module _ (sha256 : Payload → ℕ) (others : Books → Books) where
  -- `dispatch_payment`, from the answer of the provider on. `None` is a payment that is not
  -- initiated, or that has a reference, when it is first read.
  unfoldable pub dispatch_payment :
      PaymentStatus → Option String → Answer → Desk → Result RepaymentError (Outcome × Desk)
  dispatch_payment first_status first_ref answer d =
      let p = d.payment in
      let sent = record d { payment = record p { dispatch_attempts = p.dispatch_attempts + 1 } } in
      if not (same_status first_status initiated) then ok (skipped, d) else elim first_ref [
        | some _ ↦ ok (skipped, d)
        | none ↦
            (if not (same_status p.status initiated) then ok (skipped, d) else elim answer [
              | timeout ↦ ok (unknown, log provider_timeout sent)
              | rejected code ↦ move sent.payment failed (some (failure code)) >>= λ q.
                  ok (was_failed, log payment_failed (record sent { payment = q }))
              | report r ↦ apply sha256 others (record r { amount = none }) false sent
            ])
      ]

  -- `handle_webhook`, under the locks: an event of the provider is applied once. The events are the
  -- ids that have been seen; an error rolls the new one back.
  unfoldable pub handle_webhook :
      String → Report → List String × Desk → Result RepaymentError (Outcome × List String × Desk)
  handle_webhook event r (events, d) =
      if seen event events
      then ok (duplicate, events, d)
      else (apply sha256 others (no_checkout r) false d >>= λ (outcome, d').
          ok (outcome, events ++ event ∷ [], d'))

  -- `_maybe_too_old`; the age and its limit are in hours.
  unfoldable pub maybe_too_old : ℕ → ℕ → Outcome × Desk → Result RepaymentError (Outcome × Desk)
  maybe_too_old now limit (was_pending, d) =
      if same_status d.payment.status pending && leb limit (now - d.payment.requested_at)
      then review unresolved_too_long d
      else ok (was_pending, d)
  maybe_too_old now limit (unknown, d) =
      if same_status d.payment.status pending && leb limit (now - d.payment.requested_at)
      then review unresolved_too_long d
      else ok (unknown, d)
  maybe_too_old now limit (outcome, d) = ok (outcome, d)

  -- `reconcile_one`, where the row could be locked.
  unfoldable pub reconcile_one :
      PaymentStatus → Lookup → ℕ → ℕ → Desk → Result RepaymentError (Outcome × Desk)
  reconcile_one first_status answer now limit d =
      if not (same_status first_status pending) then ok (skipped, d) else elim answer [
        | unreachable ↦ maybe_too_old now limit (unknown, log poll_timeout d)
        | not_found ↦
            if same_status d.payment.status pending
            then review provider_ref_not_found d
            else ok (skipped, d)
        | found r ↦
            if same_status d.payment.status pending
            then (apply sha256 others (no_checkout r) false d >>= maybe_too_old now limit)
            else ok (skipped, d)
      ]

  abbrev is_unresolved : PaymentStatus → Bool
  is_unresolved initiated = true
  is_unresolved pending = true
  is_unresolved requires_review = true
  is_unresolved _ = false

  abbrev lift_call : {A : Type 0} → Result RepaymentError A → Result CallError A
  lift_call (ok a) = ok a
  lift_call (err e) = err (failed_with e)

  -- `recheck`, by an admin who may review.
  unfoldable pub recheck : PaymentStatus → Lookup → Desk → Result CallError (Outcome × Desk)
  recheck first_status answer d =
      let from_review = same_status d.payment.status requires_review in
      let gone : Report = record {
        status = says_failed;
        provider_ref = none;
        amount = none;
        failure_code = some provider_not_found;
        checkout_url = none;
      } in
      let audited = λ (r : Outcome × Desk). (let (o, d') = r in ok (o, log rechecked d')) in
      if not (is_unresolved first_status) then err unresolved_only else elim answer [
        | unreachable ↦ err unavailable
        | not_found ↦
            (if not (is_unresolved d.payment.status)
              then err unresolved_only
              else if from_review
              then lift_call (apply sha256 others gone true d) >>= audited
              else audited (not_found_yet, d))
        | found r ↦
            (if not (is_unresolved d.payment.status)
              then err unresolved_only
              else lift_call (apply sha256 others (no_checkout r) from_review d) >>= audited)
      ]
