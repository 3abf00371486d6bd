-- ===== src/Payout/Retrying.antt =====
-- A retry keeps the payouts of an offer in order, and never pays beside a live payout (`retry` of
-- app/services/disbursement.py).
use inpockets.Base.{
  ℕ, ◌+◌, ◌==◌, ◌≤◌, ltb, ◌≡◌, refl, sym, subst, ◌∙◌, true, false, not, ◌||◌, List, [], ◌∷◌, Option,
  none, some, if◌then◌else◌, Result, ok, err, find, arith, inl, inr, Bool-cases, Result-cases,
}
use inpockets.Statuses.Disbursement.{failed, reversed, requires_review, can_transition}
use inpockets.Payout.{Payout, same_payout_status, moved_payout}
use inpockets.Payout.Submitting.{PayoutLookup, found, not_found, unreachable}
use inpockets.Payout.Creating.{
  PayoutOffer, PayoutTable, CreateError, RetryOutcome, live_for_offer, count_for_offer, key_is_used,
  exists_live, new_row, put_payout, block_retry, as_retried, says_that_failed, retry_failed,
  retry_found, retry_payout,
}
use inpockets.Payout.Soundness.{move_payout-ok}
use inpockets.Payout.Numbering.{IsOrderly, count_live, none_live}
use inpockets.Payout.Ordering.{new_row-IsOrderly}

module _ (p q : Payout) (same : q.id ≡ p.id) (offer : q.loan_offer_id ≡ p.loan_offer_id)
    (attempt : q.attempt ≡ p.attempt) where
  put-key_is_used :
      (o n : ℕ) (rows : List Payout)
      → find (λ r. r.id == p.id) rows ≡ some p
      → key_is_used o n (put_payout q rows) ≡ key_is_used o n rows
  unfolding put_payout key_is_used
  put-key_is_used o n [] h = refl
  put-key_is_used o n (r ∷ rows) h = elim (Bool-cases (r.id == p.id)) [
    | inl e ↦ (let head : r ≡ p = ground (arith, h, e) in rw (same, e, offer, attempt, head) refl)
    | inr e ↦ rw (same, e, put-key_is_used o n rows (rw e at h)) refl
  ]

  put-count_for_offer :
      (o : ℕ) (rows : List Payout)
      → find (λ r. r.id == p.id) rows ≡ some p
      → count_for_offer o (put_payout q rows) ≡ count_for_offer o rows
  unfolding put_payout count_for_offer
  put-count_for_offer o [] h = refl
  put-count_for_offer o (r ∷ rows) h = elim (Bool-cases (r.id == p.id)) [
    | inl e ↦ (let head : r ≡ p = ground (arith, h, e) in rw (same, e, offer, head) refl)
    | inr e ↦ rw (same, e, put-count_for_offer o rows (rw e at h)) refl
  ]

  put-count_live :
      (o : ℕ) (rows : List Payout)
      → find (λ r. r.id == p.id) rows ≡ some p
      → count_live o (put_payout q rows)
        ≤ count_live o rows + (if p.loan_offer_id == o then 1 else 0)
  unfolding put_payout
  put-count_live o [] h = omega arith
  put-count_live o (r ∷ rows) h = elim (Bool-cases (r.id == p.id)) [
    | inl e ↦ (let head : r ≡ p = ground (arith, h, e) in rw (same, e, offer, head) (ground arith))
    | inr e ↦ rw (same, e) (ground (arith, put-count_live o rows (rw e at h)))
  ]

-- A payout that is written back, of an offer without a live one.
put-IsOrderly :
    (p q : Payout) (rows : List Payout)
    → q.id ≡ p.id
    → q.loan_offer_id ≡ p.loan_offer_id
    → q.attempt ≡ p.attempt
    → find (λ r. r.id == p.id) rows ≡ some p
    → live_for_offer p.loan_offer_id rows ≡ none
    → IsOrderly rows
    → IsOrderly (put_payout q rows)
put-IsOrderly p q rows same offer attempt held free v = record {
  numbered = (λ o n used.
      (let used' = sym (put-key_is_used p q same offer attempt o n rows held) ∙ used in
        omega
          (arith, v.numbered o n used', put-count_for_offer p q same offer attempt o rows held)));
  single = (λ o. elim (Bool-cases (p.loan_offer_id == o)) [
    | inr e ↦
        (let bound : count_live o (put_payout q rows) ≤ count_live o rows + 0 =
            rw e at (put-count_live p q same offer attempt o rows held) in
          omega (arith, bound, v.single o))
    | inl e ↦
        (let own : p.loan_offer_id ≡ o = ground (arith, e) in
          let bound : count_live o (put_payout q rows) ≤ count_live o rows + 1 =
            rw e at (put-count_live p q same offer attempt o rows held) in
          let free' : live_for_offer o rows ≡ none = rw own at free in
          omega (arith, bound, none_live o rows free'))
  ]);
}

abbrev KeepsOrder : Result CreateError (RetryOutcome × PayoutTable) → Type 0
KeepsOrder (ok (outcome, t)) = IsOrderly t.rows
KeepsOrder (err e) = Unit

as_retried-KeepsOrder :
    (now : ℕ) (o : PayoutOffer) (t : PayoutTable)
    → IsOrderly t.rows
    → KeepsOrder (as_retried (new_row now o t))
as_retried-KeepsOrder now o t v = elim (Result-cases (new_row now o t)) [
  | inr (e, bad) ↦ rw bad tt
  | inl ((p, t'), made) ↦ rw made (new_row-IsOrderly now o t p t' v made)
]

block_retry-KeepsOrder :
    (p : Payout) (t : PayoutTable)
    → p.status ≡ failed
    → find (λ r. r.id == p.id) t.rows ≡ some p
    → live_for_offer p.loan_offer_id t.rows ≡ none
    → IsOrderly t.rows
    → KeepsOrder (block_retry p t)
unfolding block_retry can_transition moved_payout
block_retry-KeepsOrder p t at held free v =
    let way : can_transition p.status requires_review ≡ true = rw at refl in
    rw (move_payout-ok p requires_review none way)
      (put-IsOrderly p _ t.rows refl refl refl held free v)

retry_failed-KeepsOrder :
    (now : ℕ) (lookup : PayoutLookup) (p : Payout) (o : PayoutOffer) (t : PayoutTable)
    → p.status ≡ failed
    → find (λ r. r.id == p.id) t.rows ≡ some p
    → live_for_offer p.loan_offer_id t.rows ≡ none
    → IsOrderly t.rows
    → KeepsOrder (retry_failed now lookup p o t)
unfolding retry_failed
retry_failed-KeepsOrder now unreachable p o t at held free v = tt
retry_failed-KeepsOrder now not_found p o t at held free v = as_retried-KeepsOrder now o t v
retry_failed-KeepsOrder now (found r) p o t at held free v =
    elim (Bool-cases (says_that_failed r.status)) [
      | inl e ↦ rw e (as_retried-KeepsOrder now o t v)
      | inr e ↦ rw e (block_retry-KeepsOrder p t at held free v)
    ]

no_live : (o : Option Payout) → exists_live o ≡ false → o ≡ none
no_live none h = refl
no_live (some p) h = cc

retry_found-KeepsOrder :
    (now : ℕ) (lookup : PayoutLookup) (held : Option Payout) (o : PayoutOffer) (t : PayoutTable)
    → ((p : Payout)
        → held ≡ some p
        → (p.loan_offer_id ≡ o.id) × (find (λ r. r.id == p.id) t.rows ≡ some p))
    → IsOrderly t.rows
    → KeepsOrder (retry_found now lookup held o t)
retry_found-KeepsOrder now lookup none o t known v = tt
retry_found-KeepsOrder now lookup (some p) o t known v =
    elim (Bool-cases
      (not (same_payout_status p.status failed || same_payout_status p.status reversed))) [
        | inl e ↦ rw e tt
        | inr e ↦ elim (Bool-cases (exists_live (live_for_offer o.id t.rows))) [
          | inl f ↦ rw (e, f) tt
          | inr f ↦ elim (Bool-cases (same_payout_status p.status failed)) [
            | inr g ↦ rw (e, f, g) (as_retried-KeepsOrder now o t v)
            | inl g ↦
                (let (offer, held) = known p refl in
                  let at : p.status ≡ failed = ground (arith, g) in
                  let free : live_for_offer p.loan_offer_id t.rows ≡ none =
                    rw offer (no_live _ f) in
                  rw (e, f, g) (retry_failed-KeepsOrder now lookup p o t at held free v))
          ]
        ]
      ]

find_by_id :
    (id : ℕ) (rows : List Payout) (p : Payout) → find (λ r. r.id == id) rows ≡ some p → p.id ≡ id
find_by_id id [] p h = cc
find_by_id id (r ∷ rows) p h = elim (Bool-cases (r.id == id)) [
  | inl e ↦ ground (arith, h, e)
  | inr e ↦ find_by_id id rows p (rw e at h)
]

-- A retry, made with the offer of the payout, keeps the payouts in order whatever the provider says
-- and however it ends: no attempt is above the number of the offer's payouts, and at most one payout of an offer is live.
pub retry_payout-IsOrderly :
    (now : ℕ) (lookup : PayoutLookup) (reason_length id : ℕ) (o : PayoutOffer) (t : PayoutTable)
    (outcome : RetryOutcome) (t' : PayoutTable)
    → ((p : Payout) → find (λ r. r.id == id) t.rows ≡ some p → p.loan_offer_id ≡ o.id)
    → IsOrderly t.rows
    → retry_payout now lookup reason_length id o t ≡ ok (outcome, t')
    → IsOrderly t'.rows
unfolding retry_payout
retry_payout-IsOrderly now lookup reason_length id o t outcome t' offer v h =
    let kept =
      retry_found-KeepsOrder now lookup (find (λ r. r.id == id) t.rows) o t
        (λ p e. (
          offer p e,
          subst (λ k. find (λ r. r.id == k) t.rows ≡ some p) (sym (find_by_id id t.rows p e)) e,
        ))
        v in
    elim (Bool-cases (ltb reason_length 10)) [
      | inl e ↦ absurd (ground (arith, h, e))
      | inr e ↦ subst KeepsOrder (rw e at h) kept
    ]
