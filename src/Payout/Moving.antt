-- ===== src/Payout/Moving.antt =====
-- The moves of a payout (`_move`, `_review` and the branches of `_apply` of
-- app/services/disbursement.py) leave it settled.
use inpockets.Base.{ℕ, ◌≡◌, refl, ◌∙◌, true, false, Option, none, some, Bool-cases, arith, inl, inr}
use inpockets.Statuses.{here, by_move}
use inpockets.Statuses.Disbursement.{DisbursementStatus, failed, requires_review, can_transition}
use inpockets.Payout.{
  PayoutFailure, payout_failure, PayoutReason, Payout, PayoutDesk, same_payout_status, moved_payout,
  review_payout,
}
use inpockets.Payout.Applying.{fail_payout}
use inpockets.Payout.Soundness.{is_paid, IsSettled, Agrees, Leads, flush-Leads, move_payout-ok}

-- A payout that is not paid can be put under review, or is.
review-way :
    (s : DisbursementStatus)
    → is_paid s ≡ false
    → same_payout_status s requires_review ≡ false
    → can_transition s requires_review ≡ true
unfolding is_paid can_transition
review-way s h e = ground (arith, h, e)

status_of_moved :
    (p : Payout) (new : DisbursementStatus) (code : Option PayoutFailure)
    → (moved_payout p new code).status ≡ new
unfolding moved_payout
status_of_moved p new none = refl
status_of_moved p new (some c) = refl

at_review :
    (s : DisbursementStatus) → same_payout_status s requires_review ≡ true → s ≡ requires_review
at_review s h = ground (arith, h)

pub review_payout-Leads :
    (id : ℕ) (reason : PayoutReason) (d : PayoutDesk)
    → is_paid d.payout.status ≡ false
    → IsSettled id d
    → Leads id d (review_payout reason d)
unfolding review_payout is_paid moved_payout Agrees
review_payout-Leads id reason d unpaid s =
    elim (Bool-cases (same_payout_status d.payout.status requires_review)) [
      | inl e ↦ rw e (here, s, at_review d.payout.status e)
      | inr e ↦
          (let way = review-way d.payout.status unpaid e in
            rw (e, move_payout-ok d.payout requires_review none way)
              (flush-Leads id d _ _ (λ single. (
                by_move way here,
                record {
                  own = s.own;
                  fresh = s.fresh;
                  booked = s.booked ∙ unpaid;
                  single = single;
                },
                refl,
              ))))
    ]

failing-way : (s : DisbursementStatus) → can_transition s failed ≡ true → is_paid s ≡ false
unfolding is_paid can_transition
failing-way s h = ground (arith, h)

pub fail_payout-Leads :
    (id : ℕ) (code : Option PayoutFailure) (d : PayoutDesk)
    → can_transition d.payout.status failed ≡ true
    → IsSettled id d
    → Leads id d (fail_payout code d)
unfolding fail_payout is_paid moved_payout Agrees
fail_payout-Leads id code d way s =
    rw (move_payout-ok d.payout failed (some (payout_failure code)) way) (
      flush-Leads id d _ _ (λ single. (
        by_move way here,
        record {
          own = s.own;
          fresh = s.fresh;
          booked = s.booked ∙ failing-way d.payout.status way;
          single = single;
        },
        refl,
      )))
