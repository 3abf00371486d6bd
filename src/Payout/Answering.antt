-- ===== src/Payout/Answering.antt =====
-- A report on a payout that is with the provider is always answered: the payout leaves the provider,
-- or the answer says that it stays (`_apply` of app/services/disbursement.py).
use inpockets.Base.{
  ℕ, ◌≡◌, ◌≢◌, refl, ap, ◌∙◌, String, Bool, true, false, Option, none, some, Result, ok, ◌>>=◌,
  Option-cases, Bool-cases, arith, inl, inr, subst, sym,
}
use inpockets.Base.Int.{pos, ◌<ℤ◌}
use inpockets.Ledger.{Payload}
use inpockets.Ledger.Tables.{Books, disbursement_paid}
use inpockets.Ledger.Keys.{IsQuiet}
use inpockets.Ledger.Succeeding.{HasChart, IsPriced, post_disbursement_succeeds}
use inpockets.Repayment.Payments.Applying.{present, differs, takes_ref}
use inpockets.Statuses.Disbursement.{
  processing, success, failed, reversed, requires_review, can_transition, is_live,
}
use inpockets.Payout.{
  PayoutFailure, payout_failure, PayoutReason, PayoutOutcome, was_processing, was_success,
  was_failed, in_review, PayoutSays, says_processing, says_success, says_failed, says_reversed,
  says_other, amount_mismatch, provider_ref_mismatch, unexpected_provider_status,
  success_without_provider_ref, payout_in_review, Payout, PayoutDesk, PayoutError,
  same_payout_status, moved_payout, note, flush, review_payout, source_of_payout, pay, book_payout,
}
use inpockets.Payout.Applying.{
  PayoutReport, attach_payout_ref, fail_payout, if_paid_by_ref, apply_dispatched, apply_by_status,
  apply_matching, apply_with, apply_payout,
}
use inpockets.Payout.Soundness.{is_paid, IsSettled, IsSettled-same, move_payout-ok}
use inpockets.Payout.Following.{attach_payout_ref_keeps}

abbrev pub waits : PayoutOutcome → Bool
waits was_processing = true
waits _ = false

-- The step returns, and the payout is no longer with the provider.
abbrev pub HasLeft : Result PayoutError (PayoutOutcome × PayoutDesk) → Type 0
HasLeft r =
    (outcome : PayoutOutcome) × (d : PayoutDesk) × (r ≡ ok (outcome, d))
    × (waits outcome ≡ false)
    × (same_payout_status d.payout.status processing ≡ false)

-- Or it still is, and the answer says so.
pub data Comes (r : Result PayoutError (PayoutOutcome × PayoutDesk)) : Type 0 where
  stays :
      (d : PayoutDesk)
      → r ≡ ok (was_processing, d)
      → d.payout.status ≡ processing
      → d.another_live ≡ false
      → Comes r
  moves : HasLeft r → Comes r

pub review_payout-HasLeft :
    (reason : PayoutReason) (d : PayoutDesk)
    → d.payout.status ≡ processing
    → d.another_live ≡ false
    → HasLeft (review_payout reason d)
unfolding review_payout flush moved_payout can_transition is_live
review_payout-HasLeft reason d at alone =
    let way : can_transition d.payout.status requires_review ≡ true = rw at refl in
    let moved = move_payout-ok d.payout requires_review none way in
    (
      in_review reason,
      note payout_in_review (record d {
        payout = record (moved_payout d.payout requires_review none) {
          review_reason = some reason;
        };
      }),
      ground (arith, at, moved, alone),
      refl,
      refl,
    )

review_payout-Comes :
    (reason : PayoutReason) (d : PayoutDesk)
    → d.payout.status ≡ processing
    → d.another_live ≡ false
    → Comes (review_payout reason d)
review_payout-Comes reason d at alone = moves (review_payout-HasLeft reason d at alone)

fail_payout-Comes :
    (code : Option PayoutFailure) (d : PayoutDesk)
    → d.payout.status ≡ processing
    → Comes (fail_payout code d)
unfolding fail_payout flush moved_payout can_transition is_live
fail_payout-Comes code d at =
    let way : can_transition d.payout.status failed ≡ true = rw at refl in
    rw (move_payout-ok d.payout failed (some (payout_failure code)) way)
      (moves (was_failed, _, refl, refl, refl))

-- What the ledger needs for the posting of the payout.
pub record IsPostable (d : PayoutDesk) : Type 0 where
  pub positive : pos 0 <ℤ d.payout.amount
  pub priced : IsPriced d.payout.amount d.pricing
  pub chart : HasChart d.books

attach_payout_ref-amount :
    (ref : Option String) (p q : Payout) → attach_payout_ref ref p ≡ some q → q.amount ≡ p.amount
unfolding attach_payout_ref
attach_payout_ref-amount none p q h = ground arith
attach_payout_ref-amount (some ref) p q h = elim (Option-cases p.provider_ref) [
  | inl e ↦ ground (arith, e)
  | inr (held, e) ↦ ground (arith, e)
]

module _ (sha256 : Payload → ℕ) (others : Books → Books) (id : ℕ)
    (quiet : IsQuiet (disbursement_paid id) others) where
  pay-Comes :
      (utr : Option String) (d : PayoutDesk)
      → d.payout.status ≡ processing
      → d.another_live ≡ false
      → IsSettled id d
      → IsPostable d
      → Comes (pay sha256 others utr d >>= λ d'. ok (was_success, d'))
  unfolding pay book_payout flush moved_payout can_transition is_live is_paid
  pay-Comes utr d at alone s can =
      let way : can_transition d.payout.status success ≡ true = rw at refl in
      let (posted, done) =
        post_disbursement_succeeds sha256 others (disbursement_paid id) quiet
          (source_of_payout d.payout) d.pricing d.books can.positive can.priced can.chart
          (ap disbursement_paid s.own) s.fresh (s.booked ∙ ap is_paid at) in
      rw (move_payout-ok d.payout success none way, alone, done)
        (moves (was_success, _, refl, refl, refl))

  if_paid_by_ref-Comes :
      (ref : Option String) (d : PayoutDesk)
      (rest : Result PayoutError (PayoutOutcome × PayoutDesk))
      → d.payout.status ≡ processing
      → d.another_live ≡ false
      → Comes rest
      → Comes (if_paid_by_ref ref d rest)
  unfolding if_paid_by_ref
  if_paid_by_ref-Comes none d rest at alone h =
      review_payout-Comes success_without_provider_ref d at alone
  if_paid_by_ref-Comes (some ref) d rest at alone h = h

  apply_dispatched-Comes :
      (says : PayoutSays) (r : PayoutReport) (d : PayoutDesk)
      → says ≢ says_reversed
      → d.payout.status ≡ processing
      → d.another_live ≡ false
      → IsSettled id d
      → IsPostable d
      → Comes (apply_dispatched sha256 others says r d)
  unfolding apply_dispatched
  apply_dispatched-Comes says_processing r d kept at alone s can = stays d refl at alone
  apply_dispatched-Comes says_failed r d kept at alone s can = fail_payout-Comes r.failure_code d at
  apply_dispatched-Comes says_success r d kept at alone s can =
      if_paid_by_ref-Comes d.payout.provider_ref d _ at alone (pay-Comes r.utr d at alone s can)
  apply_dispatched-Comes says_reversed r d kept at alone s can = absurd (kept refl)
  apply_dispatched-Comes says_other r d kept at alone s can =
      review_payout-Comes unexpected_provider_status d at alone

  apply_matching-Comes :
      (r : PayoutReport) (d : PayoutDesk)
      → r.status ≢ says_reversed
      → d.payout.status ≡ processing
      → d.another_live ≡ false
      → IsSettled id d
      → IsPostable d
      → Comes (apply_matching sha256 others processing r false d)
  unfolding apply_matching apply_by_status
  apply_matching-Comes r d kept at alone s can =
      elim (Bool-cases (differs r.amount d.payout.amount)) [
        | inl e ↦ rw e (review_payout-Comes amount_mismatch d at alone)
        | inr e ↦ rw e (apply_dispatched-Comes r.status r d kept at alone s can)
      ]

  pub apply_payout-Comes :
      (r : PayoutReport) (d : PayoutDesk)
      → takes_ref (present r.provider_ref) d.payout.provider_ref d.refs_of_others ≡ false
      → r.status ≢ says_reversed
      → d.payout.status ≡ processing
      → d.another_live ≡ false
      → IsSettled id d
      → IsPostable d
      → Comes (apply_payout sha256 others r false d)
  unfolding apply_payout apply_with
  apply_payout-Comes r d free kept at alone s can =
      elim (Option-cases (attach_payout_ref (present r.provider_ref) d.payout)) [
        | inl e ↦
            (let unpaid : same_payout_status d.payout.status success ≡ false = rw at refl in
              let kept : same_payout_status d.payout.status reversed ≡ false = rw at refl in
              rw (free, e, unpaid, kept) (review_payout-Comes provider_ref_mismatch d at alone))
        | inr (p, e) ↦
            (let same = attach_payout_ref_keeps (present r.provider_ref) d.payout p e in
              let amount = attach_payout_ref-amount (present r.provider_ref) d.payout p e in
              let x : PayoutDesk = record d { payout = p } in
              rw (free, e)
                (subst (λ k. Comes (apply_matching sha256 others k r false x)) (sym at)
                  (apply_matching-Comes r x kept (same.1 ∙ at) alone (IsSettled-same id d p same s)
                    (record {
                      positive = rw amount can.positive;
                      priced = rw amount can.priced;
                      chart = can.chart;
                    }))))
      ]
