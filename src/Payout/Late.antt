-- ===== src/Payout/Late.antt =====
-- A success that is reported after a failure (`_apply` and `_review` of app/services/disbursement.py,
-- and the index on live payouts of app/models/disbursement.py).
use inpockets.Base.{
  ◌≡◌, refl, sym, ◌∙◌, Bool, true, false, none, some, Result, ok, err, Option-cases, Bool-cases,
  arith, inl, inr, subst, ℕ,
}
use inpockets.Ledger.{Payload}
use inpockets.Ledger.Tables.{Books}
use inpockets.Repayment.Payments.Applying.{present, differs, takes_ref}
use inpockets.Statuses.Disbursement.{
  success, failed, reversed, requires_review, can_transition, is_live,
}
use inpockets.Payout.{
  PayoutReason, PayoutOutcome, in_review, says_success, amount_mismatch, provider_ref_mismatch,
  late_success_after_failure, payout_in_review, integrity_error, PayoutDesk, PayoutError,
  same_payout_status, moved_payout, note, flush, review_payout,
}
use inpockets.Payout.Applying.{
  PayoutReport, attach_payout_ref, apply_by_status, apply_matching, apply_with, apply_payout,
}
use inpockets.Payout.Soundness.{move_payout-ok}
use inpockets.Payout.Following.{attach_payout_ref_keeps}

-- The report is kept for a review where no other payout of the offer is live, and lost otherwise.
abbrev pub IsLate : PayoutDesk → Result PayoutError (PayoutOutcome × PayoutDesk) → Type 0
IsLate d r =
    (d.another_live ≡ false
      → (reason : PayoutReason) × (d' : PayoutDesk) × (r ≡ ok (in_review reason, d'))
        × (d'.payout.status ≡ requires_review)
        × (d'.books ≡ d.books))
    × (d.another_live ≡ true → r ≡ err integrity_error)

abbrev pub IsLateUnless :
    Bool → PayoutDesk → Result PayoutError (PayoutOutcome × PayoutDesk) → Type 0
IsLateUnless true d r = r ≡ err integrity_error
IsLateUnless false d r = IsLate d r

review_payout-IsLate :
    (reason : PayoutReason) (d : PayoutDesk)
    → d.payout.status ≡ failed
    → IsLate d (review_payout reason d)
unfolding review_payout flush moved_payout can_transition is_live
review_payout-IsLate reason d at =
    let way : can_transition d.payout.status requires_review ≡ true = rw at refl in
    let moved = move_payout-ok d.payout requires_review none way in
    (
      (λ alone. (
        reason,
        note payout_in_review (record d {
          payout = record (moved_payout d.payout requires_review none) {
            review_reason = some reason;
          };
        }),
        ground (arith, at, moved, alone),
        refl,
        refl,
      )),
      (λ rival. ground (arith, at, moved, rival)),
    )

module _ (sha256 : Payload → ℕ) (others : Books → Books) where
  apply_matching-IsLate :
      (r : PayoutReport) (from_review : Bool) (d : PayoutDesk)
      → r.status ≡ says_success
      → d.payout.status ≡ failed
      → IsLate d (apply_matching sha256 others failed r from_review d)
  unfolding apply_matching apply_by_status
  apply_matching-IsLate r v d reported at = elim (Bool-cases (differs r.amount d.payout.amount)) [
    | inl e ↦ rw e (review_payout-IsLate amount_mismatch d at)
    | inr e ↦ rw (e, reported) (review_payout-IsLate late_success_after_failure d at)
  ]

  apply_with-IsLate :
      (r : PayoutReport) (from_review : Bool) (d : PayoutDesk)
      → r.status ≡ says_success
      → d.payout.status ≡ failed
      → IsLate d (
          apply_with sha256 others
            (attach_payout_ref (present r.provider_ref) d.payout)
            r
            from_review
            d)
  unfolding apply_with
  apply_with-IsLate r v d reported at =
      elim (Option-cases (attach_payout_ref (present r.provider_ref) d.payout)) [
        | inl e ↦
            (let unpaid : same_payout_status d.payout.status success ≡ false = rw at refl in
              let kept : same_payout_status d.payout.status reversed ≡ false = rw at refl in
              rw (e, unpaid, kept) (review_payout-IsLate provider_ref_mismatch d at))
        | inr (p, e) ↦
            (let same = attach_payout_ref_keeps (present r.provider_ref) d.payout p e in
              let x : PayoutDesk = record d { payout = p } in
              rw e (
                subst (λ k. IsLate x (apply_matching sha256 others k r v x)) (sym at)
                  (apply_matching-IsLate r v x reported (same.1 ∙ at))))
      ]

  -- A success that is reported for a failed payout is put under review, with the ledger unchanged,
  -- if no other payout of the offer is live; if one is, such as a retry, the review violates
  -- the index on live payouts and the report ends in an integrity error. So does a report with the
  -- reference of another payout, where the failed one has none.
  pub report_after_failure :
      (r : PayoutReport) (from_review : Bool) (d : PayoutDesk)
      → r.status ≡ says_success
      → d.payout.status ≡ failed
      → IsLateUnless
          (takes_ref (present r.provider_ref) d.payout.provider_ref d.refs_of_others)
          d
          (apply_payout sha256 others r from_review d)
  unfolding apply_payout
  report_after_failure r v d reported at =
      let taken = takes_ref (present r.provider_ref) d.payout.provider_ref d.refs_of_others in
      elim (Bool-cases taken) [
        | inl e ↦ rw e refl
        | inr e ↦ rw e (apply_with-IsLate r v d reported at)
      ]
