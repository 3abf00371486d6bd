-- ===== src/Payout/Resolving.antt =====
-- A payout that stays with the provider for too long is resolved by the next poll that is answered
-- (`reconcile_one` of app/services/disbursement.py).
use inpockets.Base.{
  ℕ, ◌-◌, ◌≤◌, leb, ◌≡◌, ◌≢◌, refl, String, Bool, true, false, some, Result, ok, ◌>>=◌,
  Option-cases, arith, inl, inr, subst, sym,
}
use inpockets.Ledger.{Payload}
use inpockets.Ledger.Tables.{Books, disbursement_paid}
use inpockets.Ledger.Keys.{IsQuiet}
use inpockets.Repayment.Payments.Applying.{present, takes_ref}
use inpockets.Statuses.Disbursement.{processing, is_live}
use inpockets.Payout.{
  PayoutOutcome, was_processing, says_reversed, unresolved_too_long, provider_ref_not_found,
  provider_unresolved, poll_timeout, PayoutDesk, PayoutError, same_payout_status, note,
}
use inpockets.Payout.Submitting.{
  PayoutAnswer, PayoutLookup, found, not_found, unreachable, sent_at, too_long, submit_again,
  has_ref, polled, reconcile_payout,
}
use inpockets.Payout.Soundness.{IsSettled}
use inpockets.Payout.Answering.{
  waits, HasLeft, Comes, stays, moves, review_payout-HasLeft, IsPostable, apply_payout-Comes,
}

-- The provider knows the payout, and does not report it reversed or with the reference of another
-- payout; or it cannot be reached.
abbrev pub IsAnswer : PayoutLookup → PayoutDesk → Type 0
IsAnswer unreachable d = Unit
IsAnswer (found r) d =
    (r.status ≢ says_reversed)
    × (takes_ref (present r.provider_ref) d.payout.provider_ref d.refs_of_others ≡ false)
IsAnswer not_found d = has_ref d.payout.provider_ref ≡ true

module _ (sha256 : Payload → ℕ) (others : Books → Books) (id : ℕ)
    (quiet : IsQuiet (disbursement_paid id) others) where
  alone_when_live :
      (d : PayoutDesk) → d.payout.status ≡ processing → IsSettled id d → d.another_live ≡ false
  unfolding is_live
  alone_when_live d at s =
      let live : is_live d.payout.status ≡ true = rw at refl in ground (arith, live, s.single)

  too_long-moved :
      (outcome : PayoutOutcome) (d : PayoutDesk)
      → waits outcome ≡ false
      → too_long sha256 others true (outcome, d) ≡ ok (outcome, d)
  unfolding too_long
  too_long-moved outcome d h = ground (arith, h)

  -- What too long a stay does to an answer.
  too_long-Comes :
      (r : Result PayoutError (PayoutOutcome × PayoutDesk))
      → Comes r
      → HasLeft (r >>= too_long sha256 others true)
  unfolding too_long
  too_long-Comes r (stays d e at alone) =
      rw e (review_payout-HasLeft unresolved_too_long d at alone)
  too_long-Comes r (moves (outcome, d, e, other, left)) =
      rw e (rw (too_long-moved outcome d other) (outcome, d, refl, other, left))

  polled-HasLeft :
      (lookup : PayoutLookup) (beneficiary : Bool) (answer : PayoutAnswer) (d : PayoutDesk)
      → IsAnswer lookup d
      → d.payout.status ≡ processing
      → d.another_live ≡ false
      → IsSettled id d
      → IsPostable d
      → HasLeft (polled sha256 others true lookup beneficiary answer d)
  unfolding polled
  polled-HasLeft unreachable beneficiary answer d known at alone s can =
      review_payout-HasLeft provider_unresolved (note poll_timeout d) at alone
  polled-HasLeft (found r) beneficiary answer d known at alone s can =
      too_long-Comes _
        (apply_payout-Comes sha256 others id quiet r d known.1 known.0 at alone s can)
  polled-HasLeft not_found beneficiary answer d known at alone s can =
      elim (Option-cases d.payout.provider_ref) [
        | inl e ↦ absurd (ground (arith, known, e))
        | inr (ref, e) ↦
            subst (λ o. HasLeft (submit_again sha256 others o beneficiary answer d)) (sym e)
              (again_left ref beneficiary answer d at alone)
      ]
    where
      again_left :
          (ref : String) (beneficiary : Bool) (answer : PayoutAnswer) (d : PayoutDesk)
          → d.payout.status ≡ processing
          → d.another_live ≡ false
          → HasLeft (submit_again sha256 others (some ref) beneficiary answer d)
      again_left ref beneficiary answer d at alone =
          unfold submit_again in review_payout-HasLeft provider_ref_not_found d at alone

  -- A payout that has been with the provider for as long as the limit is resolved by the next poll,
  -- unless the provider has never seen it, or reports it reversed or, while it has no reference,
  -- with that of another payout: where the payout is settled, its
  -- amount is positive and agrees with the pricing, and the chart has the accounts, the poll returns,
  -- it does not answer that the payout is processing, and the payout is no longer with the provider.
  pub reconcile_payout_resolves :
      (now limit : ℕ) (lookup : PayoutLookup) (beneficiary : Bool) (answer : PayoutAnswer)
      (d : PayoutDesk)
      → d.payout.status ≡ processing
      → limit ≤ now - sent_at d.payout
      → IsAnswer lookup d
      → IsSettled id d
      → IsPostable d
      → (outcome : PayoutOutcome) × (d' : PayoutDesk) × (reconcile_payout sha256 others now limit
            lookup beneficiary answer d
          ≡ ok (outcome, d'))
        × (outcome ≢ was_processing)
        × (d'.payout.status ≢ processing)
  unfolding reconcile_payout
  reconcile_payout_resolves now limit lookup beneficiary answer d at old known s can =
      let here : same_payout_status d.payout.status processing ≡ true = rw at refl in
      let too_old : leb limit (now - sent_at d.payout) ≡ true = ground (arith, old) in
      let alone = alone_when_live d at s in
      let (outcome, d', e, other, left) =
        polled-HasLeft lookup beneficiary answer d known at alone s can in
      (
        outcome,
        d',
        rw (here, too_old) e,
        (λ x. ground (arith, other, x)),
        (λ x. ground (arith, left, x)),
      )
