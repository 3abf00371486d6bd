-- ===== src/Repayment/Payments/Applying.antt =====
-- `_apply` of app/services/repayment.py: what a report of the provider does to a payment.
use text.Mathlib.Text.{◌==◌ as str_eq}
use inpockets.Base.{
  ℕ, String, Bool, false, not, ◌||◌, List, [], ◌∷◌, Option, none, some, if◌then◌else◌, Result, ok,
  err, ◌>>=◌,
}
use inpockets.Base.Int.{ℤ, eqb_ℤ}
use inpockets.Ledger.{Payload}
use inpockets.Ledger.Tables.{Books}
use inpockets.Repayment.{
  PaymentStatus, initiated, pending, success, failed, reversed, requires_review,
}
use inpockets.Repayment.Payments.{
  Reported, says_pending, says_success, says_failed, says_reversed, says_other, FailureCode,
  failure, provider_ref_mismatch, amount_mismatch, late_success_after_failure,
  success_without_provider_ref, unexpected_provider_status, Outcome, was_pending, was_success,
  was_failed, was_reversed, duplicate_success, ignored_terminal, amount_mismatch_ignored,
  ignored_after_success, ignored_after_failure, ignored_in_review, conflict_ignored,
  payment_pending, payment_failed, Payment, Desk, RepaymentError, integrity_error, same_status,
  move, log, review, settle, reverse_payment,
}

-- The keyword arguments of `_apply`, but `from_review`.
pub record Report : Type 0 where
  pub status : Reported
  pub provider_ref : Option String
  pub amount : Option ℤ
  pub failure_code : Option FailureCode
  pub checkout_url : Option String

-- `if provider_ref:` is false of an empty text too.
abbrev pub present : Option String → Option String
present none = none
present (some s) = if str_eq s "" then none else some s

-- The payment with the reported reference; `none` where it has another one already.
unfoldable pub attach_ref : Option String → Payment → Option Payment
attach_ref none p = some p
attach_ref (some ref) p = elim p.provider_ref [
  | none ↦ some (record p { provider_ref = some ref })
  | some held ↦ if str_eq held ref then some p else none
]

abbrev pub is_among : String → List String → Bool
is_among ref [] = false
is_among ref (s ∷ rest) = str_eq s ref || is_among ref rest

-- A reference is attached that another row has (the unique index on provider references).
abbrev pub takes_ref : Option String → Option String → List String → Bool
takes_ref (some ref) none refs = is_among ref refs
takes_ref _ _ refs = false

-- `amount is not None and amount != p.amount`
abbrev pub differs : Option ℤ → ℤ → Bool
differs none amount = false
differs (some reported) amount = not (eqb_ℤ reported amount)

-- `if p.provider_ref is None: return await self._review(...)`
unfoldable pub if_referenced :
    Option String
    → Desk
    → Result RepaymentError (Outcome × Desk)
    → Result RepaymentError (Outcome × Desk)
if_referenced none d rest = review success_without_provider_ref d
if_referenced (some _) d rest = rest

module _ (sha256 : Payload → ℕ) (others : Books → Books) where
  -- The end of `_apply`: the payment is initiated, pending or rechecked from review.
  unfoldable pub apply_open : Reported → Report → Desk → Result RepaymentError (Outcome × Desk)
  apply_open says_pending r d =
      if same_status d.payment.status initiated
      then (do
        p ← move d.payment pending none
        ok (
          was_pending,
          log payment_pending (record d { payment = record p { checkout_url = r.checkout_url } }),
        ))
      else ok (was_pending, d)
  apply_open says_failed r d = do
    p ← move d.payment failed (some (failure r.failure_code))
    ok (was_failed, log payment_failed (record d { payment = record p { review_reason = none } }))
  apply_open says_success r d =
      if_referenced d.payment.provider_ref d (settle sha256 others d >>= λ d'. ok (was_success, d'))
  apply_open says_reversed r d = if_referenced d.payment.provider_ref d (
      settle sha256 others d >>= λ d'.
      reverse_payment sha256 others d' >>= λ d''. ok (was_reversed, d''))
  apply_open says_other r d = review unexpected_provider_status d

  -- By the status that the payment has, once the reference and the amount agree.
  unfoldable pub apply_status :
      PaymentStatus → Reported → Report → Bool → Desk → Result RepaymentError (Outcome × Desk)
  apply_status success says_success r from_review d = ok (duplicate_success, d)
  apply_status success says_reversed r from_review d =
      reverse_payment sha256 others d >>= λ d'. ok (was_reversed, d')
  apply_status success says_pending r from_review d =
      ok (ignored_after_success, log conflict_ignored d)
  apply_status success says_failed r from_review d =
      ok (ignored_after_success, log conflict_ignored d)
  apply_status success says_other r from_review d =
      ok (ignored_after_success, log conflict_ignored d)
  apply_status failed says_success r from_review d = review late_success_after_failure d
  apply_status failed says_reversed r from_review d = review late_success_after_failure d
  apply_status failed says_pending r from_review d = ok (ignored_after_failure, d)
  apply_status failed says_failed r from_review d = ok (ignored_after_failure, d)
  apply_status failed says_other r from_review d = ok (ignored_after_failure, d)
  apply_status requires_review says r false d = ok (ignored_in_review, d)
  apply_status _ says r from_review d = apply_open says r d

  -- The status before anything is changed decides.
  unfoldable pub apply_agreed :
      PaymentStatus → Report → Bool → Desk → Result RepaymentError (Outcome × Desk)
  apply_agreed current r from_review d =
      if same_status current reversed
      then ok (ignored_terminal, d)
      else if differs r.amount d.payment.amount
      then (if same_status current success
          then ok (amount_mismatch_ignored, log conflict_ignored d)
          else review amount_mismatch d)
      else apply_status current r.status r from_review d

  -- With the payment that has the reported reference, or without one.
  unfoldable pub apply_attached :
      Option Payment → Report → Bool → Desk → Result RepaymentError (Outcome × Desk)
  apply_attached (some p) r from_review d =
      apply_agreed d.payment.status r from_review (record d { payment = p })
  apply_attached none r from_review d =
      if same_status d.payment.status success
      then ok (ignored_terminal, log conflict_ignored d)
      else if same_status d.payment.status reversed
      then ok (ignored_terminal, log conflict_ignored d)
      else review provider_ref_mismatch d

  -- `_apply`. A violation of the index shows at the next flush, at the latest at the commit.
  unfoldable pub apply : Report → Bool → Desk → Result RepaymentError (Outcome × Desk)
  apply r from_review d =
      let ref = present r.provider_ref in
      if takes_ref ref d.payment.provider_ref d.refs_of_others
      then err integrity_error
      else apply_attached (attach_ref ref d.payment) r from_review d
