-- ===== src/Payout/Calling.antt =====
-- The callers of `_apply` leave a settled payout settled (app/services/disbursement.py).
use inpockets.Base.{
  ℕ, ◌≡◌, refl, ap, ◌∙◌, Bool, true, false, Option, none, some, Result, ok, err, ◌>>=◌, Bool-cases,
  arith, inl, inr, String,
}
use inpockets.Ledger.{Payload}
use inpockets.Ledger.Tables.{Books, disbursement_paid}
use inpockets.Ledger.Keys.{IsQuiet}
use inpockets.Statuses.{here, by_move}
use inpockets.Statuses.Disbursement.{
  DisbursementStatus, pending, processing, failed, can_transition,
}
use inpockets.Payout.{
  payout_failure, invalid_transition, integrity_error, ledger, PayoutOutcome, was_processing,
  provider_timeout, poll_timeout, unresolved_too_long, provider_unresolved, provider_ref_not_found,
  beneficiary_unavailable, PayoutDesk, PayoutError, same_payout_status, moved_payout, note,
}
use inpockets.Payout.Submitting.{
  PayoutAnswer, report, timeout, rejected, PayoutLookup, found, not_found, unreachable, has_ref,
  claim, submit, submit_claimed, too_long, submit_again, polled, reconcile_payout,
}
use inpockets.Payout.Soundness.{
  is_paid, IsSettled, IsSettled-note, Agrees, Leads, Leads-from, flush-Leads, move_payout-ok,
}
use inpockets.Payout.Moving.{review_payout-Leads}
use inpockets.Payout.Following.{apply_payout-Leads}

at_processing : (s : DisbursementStatus) → same_payout_status s processing ≡ true → s ≡ processing
at_processing s h = ground (arith, h)

at_pending : (s : DisbursementStatus) → same_payout_status s pending ≡ true → s ≡ pending
at_pending s h = ground (arith, h)

module _ (sha256 : Payload → ℕ) (others : Books → Books) (id : ℕ)
    (quiet : IsQuiet (disbursement_paid id) others) where
  pub claim-Leads :
      (now : ℕ) (d : PayoutDesk) → IsSettled id d → Leads id d (claim sha256 others now d)
  unfolding claim moved_payout can_transition is_paid Agrees
  claim-Leads now d s = elim (Bool-cases (same_payout_status d.payout.status pending)) [
    | inr e ↦ rw e (here, s, tt)
    | inl e ↦
        (let at = at_pending d.payout.status e in
          let way : can_transition d.payout.status processing ≡ true = rw at refl in
          rw (e, move_payout-ok d.payout processing none way)
            (flush-Leads id d _ _ (λ single. (
              by_move way here,
              record {
                own = s.own;
                fresh = s.fresh;
                booked = s.booked ∙ ap is_paid at;
                single = single;
              },
              refl,
            ))))
  ]

  -- Of a payout that is with the provider.
  submit-Leads :
      (beneficiary : Bool) (answer : PayoutAnswer) (d : PayoutDesk)
      → d.payout.status ≡ processing
      → IsSettled id d
      → Leads id d (submit sha256 others beneficiary answer d)
  unfolding submit moved_payout can_transition is_paid Agrees
  submit-Leads false answer d at s =
      review_payout-Leads id beneficiary_unavailable d (ap is_paid at) s
  submit-Leads true timeout d at s = (here, IsSettled-note id provider_timeout d s, tt)
  submit-Leads true (report r) d at s = apply_payout-Leads sha256 others id quiet _ false d s
  submit-Leads true (rejected code) d at s =
      let way : can_transition d.payout.status failed ≡ true = rw at refl in
      rw (move_payout-ok d.payout failed (some (payout_failure code)) way) (
        flush-Leads id d _ _ (λ single. (
          by_move way here,
          record {
            own = s.own;
            fresh = s.fresh;
            booked = s.booked ∙ ap is_paid at;
            single = single;
          },
          refl,
        )))

  pub submit_claimed-Leads :
      (beneficiary : Bool) (answer : PayoutAnswer) (d : PayoutDesk)
      → IsSettled id d
      → Leads id d (submit_claimed sha256 others beneficiary answer d)
  unfolding submit_claimed Agrees
  submit_claimed-Leads beneficiary answer d s =
      elim (Bool-cases (same_payout_status d.payout.status processing)) [
        | inr e ↦ rw e (here, s, tt)
        | inl e ↦ elim (Bool-cases (has_ref d.payout.provider_ref)) [
          | inl f ↦ rw (e, f) (here, s, tt)
          | inr f ↦
              rw (e, f) (submit-Leads beneficiary answer d (at_processing d.payout.status e) s)
        ]
      ]

  submit_again-Leads :
      (ref : Option String) (beneficiary : Bool) (answer : PayoutAnswer) (d : PayoutDesk)
      → d.payout.status ≡ processing
      → IsSettled id d
      → Leads id d (submit_again sha256 others ref beneficiary answer d)
  unfolding submit_again is_paid
  submit_again-Leads (some ref) beneficiary answer d at s =
      review_payout-Leads id provider_ref_not_found d (ap is_paid at) s
  submit_again-Leads none beneficiary answer d at s =
      submit-Leads beneficiary answer _ at
        (record { own = s.own; fresh = s.fresh; booked = s.booked; single = s.single })

  -- A payout that stays with the provider for too long is not paid, so that it can be reviewed.
  too_long-Leads :
      (too_old : Bool) (d : PayoutDesk) (r : Result PayoutError (PayoutOutcome × PayoutDesk))
      → Leads id d r
      → Leads id d (r >>= too_long sha256 others too_old)
  unfolding too_long Agrees
  too_long-Leads too_old d (err invalid_transition) h = h
  too_long-Leads too_old d (err integrity_error) h = tt
  too_long-Leads too_old d (err (ledger e)) h = tt
  too_long-Leads false d (ok (outcome, d')) h = h
  too_long-Leads true d (ok (was_processing, d')) (moves, s, unpaid) =
      Leads-from id d d' _ moves (review_payout-Leads id unresolved_too_long d' unpaid s)
  too_long-Leads true d (ok (outcome, d')) h = h

  polled-Leads :
      (too_old : Bool) (lookup : PayoutLookup) (beneficiary : Bool) (answer : PayoutAnswer)
      (d : PayoutDesk)
      → d.payout.status ≡ processing
      → IsSettled id d
      → Leads id d (polled sha256 others too_old lookup beneficiary answer d)
  unfolding polled is_paid Agrees
  polled-Leads true unreachable beneficiary answer d at s =
      review_payout-Leads id provider_unresolved (note poll_timeout d) (ap is_paid at)
        (IsSettled-note id poll_timeout d s)
  polled-Leads false unreachable beneficiary answer d at s =
      (here, IsSettled-note id poll_timeout d s, tt)
  polled-Leads too_old not_found beneficiary answer d at s =
      submit_again-Leads d.payout.provider_ref beneficiary answer d at s
  polled-Leads too_old (found r) beneficiary answer d at s =
      too_long-Leads too_old d _ (apply_payout-Leads sha256 others id quiet r false d s)

  pub reconcile_payout-Leads :
      (now limit : ℕ) (lookup : PayoutLookup) (beneficiary : Bool) (answer : PayoutAnswer)
      (d : PayoutDesk)
      → IsSettled id d
      → Leads id d (reconcile_payout sha256 others now limit lookup beneficiary answer d)
  unfolding reconcile_payout Agrees
  reconcile_payout-Leads now limit lookup beneficiary answer d s =
      elim (Bool-cases (same_payout_status d.payout.status processing)) [
        | inr e ↦ rw e (here, s, tt)
        | inl e ↦
            rw e (polled-Leads _ lookup beneficiary answer d (at_processing d.payout.status e) s)
      ]
