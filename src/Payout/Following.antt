-- ===== src/Payout/Following.antt =====
-- A report of the provider leaves a settled payout settled, and moves it along the table only
-- (`_apply` of app/services/disbursement.py).
use inpockets.Base.{
  ℕ, ◌≡◌, refl, ap, Bool, true, false, Option, none, some, Result, ok, ◌>>=◌, Option-cases,
  Bool-cases, arith, inl, inr, String,
}
use inpockets.Ledger.{Payload}
use inpockets.Ledger.Tables.{Books, disbursement_paid}
use inpockets.Ledger.Keys.{IsQuiet}
use inpockets.Repayment.Payments.Applying.{present, differs, takes_ref}
use inpockets.Statuses.{here}
use inpockets.Statuses.Disbursement.{
  DisbursementStatus, pending, processing, success, failed, reversed, requires_review,
  can_transition,
}
use inpockets.Payout.{
  PayoutSays, says_processing, says_success, says_failed, says_reversed, says_other,
  success_without_provider_ref, unexpected_provider_status, amount_mismatch, provider_ref_mismatch,
  late_success_after_failure, unexpected_report_before_dispatch, was_reversed, PayoutOutcome,
  Payout, PayoutDesk, PayoutError, same_payout_status, conflict_ignored, take_back,
}
use inpockets.Payout.Applying.{
  PayoutReport, attach_payout_ref, if_paid_by_ref, apply_dispatched, apply_by_status,
  apply_matching, apply_with, apply_payout,
}
use inpockets.Payout.Soundness.{
  is_paid, IsSettled, IsSettled-note, IsSettled-same, Agrees, Leads, Ends-bind,
}
use inpockets.Payout.Moving.{review_payout-Leads, fail_payout-Leads}
use inpockets.Payout.Paying.{pay-Ends, pay-success, take_back-Ends, take_back-reversed}

-- The payout is with the provider, or under review.
dispatched-ways :
    (s : DisbursementStatus)
    → can_transition s success ≡ true
    → (is_paid s ≡ false) × (can_transition s failed ≡ true)
unfolding is_paid can_transition
dispatched-ways s h = (ground (arith, h), ground (arith, h))

pub attach_payout_ref_keeps :
    (ref : Option String) (p q : Payout)
    → attach_payout_ref ref p ≡ some q
    → (q.id ≡ p.id) × (q.status ≡ p.status)
unfolding attach_payout_ref
attach_payout_ref_keeps none p q h = ground arith
attach_payout_ref_keeps (some ref) p q h = elim (Option-cases p.provider_ref) [
  | inl e ↦ ground (arith, e)
  | inr (held, e) ↦ ground (arith, e)
]

module _ (sha256 : Payload → ℕ) (others : Books → Books) (id : ℕ)
    (quiet : IsQuiet (disbursement_paid id) others) where
  if_paid_by_ref-Leads :
      (ref : Option String) (d : PayoutDesk)
      (rest : Result PayoutError (PayoutOutcome × PayoutDesk))
      → is_paid d.payout.status ≡ false
      → IsSettled id d
      → Leads id d rest
      → Leads id d (if_paid_by_ref ref d rest)
  unfolding if_paid_by_ref
  if_paid_by_ref-Leads none d rest unpaid s h =
      review_payout-Leads id success_without_provider_ref d unpaid s
  if_paid_by_ref-Leads (some ref) d rest unpaid s h = h

  take_back-Leads :
      (d : PayoutDesk)
      → d.payout.status ≡ success
      → IsSettled id d
      → Leads id d (take_back sha256 others d >>= λ d'. ok (was_reversed, d'))
  unfolding Agrees
  take_back-Leads d at s =
      Ends-bind id d _ _ (take_back-Ends sha256 others id quiet d at s)
        (λ d' s' e. (here, s', take_back-reversed sha256 others id quiet d d' at e))

  apply_dispatched-Leads :
      (says : PayoutSays) (r : PayoutReport) (d : PayoutDesk)
      → can_transition d.payout.status success ≡ true
      → IsSettled id d
      → Leads id d (apply_dispatched sha256 others says r d)
  unfolding apply_dispatched Agrees
  apply_dispatched-Leads says_processing r d way s =
      (here, s, (dispatched-ways d.payout.status way).0)
  apply_dispatched-Leads says_failed r d way s =
      fail_payout-Leads id r.failure_code d (dispatched-ways d.payout.status way).1 s
  apply_dispatched-Leads says_success r d way s =
      if_paid_by_ref-Leads d.payout.provider_ref d _ (dispatched-ways d.payout.status way).0 s (
        Ends-bind id d _ _ (pay-Ends sha256 others id quiet r.utr d way s)
          (λ d' s' e. (here, s', pay-success sha256 others id quiet r.utr d d' way e)))
  apply_dispatched-Leads says_reversed r d way s =
      if_paid_by_ref-Leads d.payout.provider_ref d _ (dispatched-ways d.payout.status way).0 s (
        Ends-bind id d _ _ (pay-Ends sha256 others id quiet r.utr d way s)
          (λ d' s' e. take_back-Leads d' (pay-success sha256 others id quiet r.utr d d' way e) s'))
  apply_dispatched-Leads says_other r d way s =
      review_payout-Leads id unexpected_provider_status d (dispatched-ways d.payout.status way).0 s

  apply_by_status-Leads :
      (current : DisbursementStatus) (says : PayoutSays) (r : PayoutReport) (from_review : Bool)
      (d : PayoutDesk)
      → d.payout.status ≡ current
      → same_payout_status current reversed ≡ false
      → IsSettled id d
      → Leads id d (apply_by_status sha256 others current says r from_review d)
  unfolding apply_by_status is_paid can_transition Agrees
  apply_by_status-Leads success says_success r v d at open_ s = (here, s, tt)
  apply_by_status-Leads success says_reversed r v d at open_ s = take_back-Leads d at s
  apply_by_status-Leads success says_processing r v d at open_ s =
      (here, IsSettled-note id conflict_ignored d s, tt)
  apply_by_status-Leads success says_failed r v d at open_ s =
      (here, IsSettled-note id conflict_ignored d s, tt)
  apply_by_status-Leads success says_other r v d at open_ s =
      (here, IsSettled-note id conflict_ignored d s, tt)
  apply_by_status-Leads failed says_success r v d at open_ s =
      review_payout-Leads id late_success_after_failure d (ap is_paid at) s
  apply_by_status-Leads failed says_reversed r v d at open_ s =
      review_payout-Leads id late_success_after_failure d (ap is_paid at) s
  apply_by_status-Leads failed says_processing r v d at open_ s = (here, s, tt)
  apply_by_status-Leads failed says_failed r v d at open_ s = (here, s, tt)
  apply_by_status-Leads failed says_other r v d at open_ s = (here, s, tt)
  apply_by_status-Leads requires_review says r false d at open_ s = (here, s, tt)
  apply_by_status-Leads requires_review says r true d at open_ s =
      apply_dispatched-Leads says r d (rw at refl) s
  apply_by_status-Leads pending says r v d at open_ s =
      review_payout-Leads id unexpected_report_before_dispatch d (ap is_paid at) s
  apply_by_status-Leads processing says r v d at open_ s =
      apply_dispatched-Leads says r d (rw at refl) s
  apply_by_status-Leads reversed says r v d at open_ s = absurd (ground (arith, open_))

  apply_matching-Leads :
      (r : PayoutReport) (from_review : Bool) (d : PayoutDesk)
      → IsSettled id d
      → Leads id d (apply_matching sha256 others d.payout.status r from_review d)
  unfolding apply_matching is_paid Agrees
  apply_matching-Leads r v d s = elim (Bool-cases (same_payout_status d.payout.status reversed)) [
    | inl e ↦ rw e (here, s, tt)
    | inr open_ ↦ elim (Bool-cases (differs r.amount d.payout.amount)) [
      | inr e ↦ rw (open_, e) (apply_by_status-Leads d.payout.status r.status r v d refl open_ s)
      | inl e ↦ elim (Bool-cases (same_payout_status d.payout.status success)) [
        | inl paid ↦ rw (open_, e, paid) (here, IsSettled-note id conflict_ignored d s, tt)
        | inr unpaid ↦
            rw (open_, e, unpaid)
              (review_payout-Leads id amount_mismatch d (ground (arith, open_, unpaid)) s)
      ]
    ]
  ]

  apply_with-Leads :
      (o : Option Payout) (r : PayoutReport) (from_review : Bool) (d : PayoutDesk)
      → ((p : Payout) → o ≡ some p → (p.id ≡ d.payout.id) × (p.status ≡ d.payout.status))
      → IsSettled id d
      → Leads id d (apply_with sha256 others o r from_review d)
  unfolding apply_with is_paid Agrees
  apply_with-Leads (some p) r v d kept s =
      rw (← (kept p refl).1)
        (apply_matching-Leads r v (record d { payout = p }) (IsSettled-same id d p (kept p refl) s))
  apply_with-Leads none r v d kept s =
      elim (Bool-cases (same_payout_status d.payout.status success)) [
        | inl e ↦ rw e (here, IsSettled-note id conflict_ignored d s, tt)
        | inr e ↦ elim (Bool-cases (same_payout_status d.payout.status reversed)) [
          | inl f ↦ rw (e, f) (here, IsSettled-note id conflict_ignored d s, tt)
          | inr f ↦
              rw (e, f) (review_payout-Leads id provider_ref_mismatch d (ground (arith, e, f)) s)
        ]
      ]

  -- A report applied to a settled payout.
  pub apply_payout-Leads :
      (r : PayoutReport) (from_review : Bool) (d : PayoutDesk)
      → IsSettled id d
      → Leads id d (apply_payout sha256 others r from_review d)
  unfolding apply_payout
  apply_payout-Leads r v d s =
      let taken = takes_ref (present r.provider_ref) d.payout.provider_ref d.refs_of_others in
      elim (Bool-cases taken) [
        | inl e ↦ rw e tt
        | inr e ↦
            rw e (
              apply_with-Leads _ r v d (attach_payout_ref_keeps (present r.provider_ref) d.payout)
                s)
      ]
