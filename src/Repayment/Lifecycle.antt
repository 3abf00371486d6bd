-- ===== src/Repayment/Lifecycle.antt =====
-- The life of a payment (`TRANSITIONS` of app/domain/repayment.py and `_apply` of
-- app/services/repayment.py).
use inpockets.Base.{
  ℕ, true, false, List, [], ◌∷◌, ◌++◌, map, Option, none, some, Result, ok, err, ◌>>=◌, ◌≡◌, ◌≢◌,
  refl, ◌∙◌, arith, inl, inr, Result-cases, Bool-cases,
}
use inpockets.Ledger.{Payload}
use inpockets.Ledger.Business.{post_repayment, reverse_repayment}
use inpockets.Ledger.Tables.{Books}
use inpockets.Repayment.{
  PaymentStatus, initiated, pending, success, failed, reversed, requires_review, can_transition,
  is_open,
}
use inpockets.Repayment.Payments.{
  InstallmentRow, ReviewReason, Outcome, in_review, payment_in_review, Payment, Desk,
  RepaymentError, invalid_transition, integrity_error, ledger, same_status, move, review, settle,
  reverse_payment, settled_desk, reversed_desk, post_settlement, post_reversal, source_of, moved,
  FailureCode, applied_payment,
}
use inpockets.Repayment.Allocation.{Allocation, allocate}

infix 40 ◌⟶◌ ◌⟶*◌
-- The allowed moves, as a relation.
pub data ◌⟶◌ : PaymentStatus → PaymentStatus → Type 0 where
  step : {s t : PaymentStatus} → can_transition s t ≡ true → s ⟶ t

pub data ◌⟶*◌ : PaymentStatus → PaymentStatus → Type 0 where
  here : {s : PaymentStatus} → s ⟶* s
  after : {s t u : PaymentStatus} → s ⟶ t → t ⟶* u → s ⟶* u

-- What a call has done that began at a status.
abbrev pub Follows : {A : Type 0} → (A → Desk) → PaymentStatus → Result RepaymentError A → Type 0
Follows desk s (ok a) = s ⟶* (desk a).payment.status
Follows desk s (err (ledger e)) = Unit
Follows desk s (err _) = ⊥

pub same_status_eq : (s t : PaymentStatus) → same_status s t ≡ true → s ≡ t
same_status_eq s t h = ground arith

abbrev pub the_desk : Outcome × Desk → Desk
the_desk (o, d) = d

-- A payment that is neither settled nor reversed can go to review.
pub review-ok :
    (reason : ReviewReason) (d : Desk)
    → d.payment.status ≢ success
    → d.payment.status ≢ reversed
    → (d' : Desk) × (review reason d ≡ ok (in_review reason, d'))
      × (d'.payment.status ≡ requires_review)
unfolding review move moved can_transition
review-ok reason d s r = elim (Bool-cases (same_status d.payment.status requires_review)) [
  | inl same ↦ (d, rw same, same_status_eq _ _ same)
  | inr other ↦
      (let p = d.payment in
        (
          record d {
            payment = record p { status = requires_review; review_reason = some reason };
            audit = d.audit ++ payment_in_review ∷ [];
          },
          ground arith,
          refl,
        ))
]

to_review : (s : PaymentStatus) → s ≢ success → s ≢ reversed → s ⟶* requires_review
unfolding can_transition
to_review initiated ns nr = after (step refl) here
to_review pending ns nr = after (step refl) here
to_review failed ns nr = after (step refl) here
to_review requires_review ns nr = here
to_review success ns nr = absurd (ns refl)
to_review reversed ns nr = absurd (nr refl)

pub review-Follows :
    (reason : ReviewReason) (d : Desk)
    → d.payment.status ≢ success
    → d.payment.status ≢ reversed
    → Follows the_desk d.payment.status (review reason d)
review-Follows reason d s r =
    let (d', e, t) = review-ok reason d s r in rw e (rw t (to_review d.payment.status s r))

pub moved_status :
    (p : Payment) (new : PaymentStatus) (code : Option FailureCode)
    → (moved p new code).status ≡ new
unfolding moved
moved_status p new none = refl
moved_status p new (some c) = refl

-- An allowed move is made.
pub move-ok :
    (p : Payment) (new : PaymentStatus) (code : Option FailureCode)
    → same_status p.status new ≡ false
    → can_transition p.status new ≡ true
    → move p new code ≡ ok (moved p new code)
unfolding move
move-ok p new code s c = rw s (rw c)

-- An open payment may be settled or fail.
pub open_moves :
    (s : PaymentStatus)
    → is_open s ≡ true
    → (same_status s success ≡ false)
      × (can_transition s success ≡ true)
      × (same_status s failed ≡ false)
      × (can_transition s failed ≡ true)
unfolding is_open can_transition
open_moves s h = ground arith

settled_desk_status :
    (allocations : List Allocation) (d : Desk) (p : Payment) (books : Books)
    → (settled_desk allocations d p books).payment.status ≡ p.status
unfolding settled_desk
settled_desk_status allocations d p books = ground arith

reversed_desk_status :
    (d : Desk) (p : Payment) (books : Books) → (reversed_desk d p books).payment.status ≡ p.status
unfolding reversed_desk
reversed_desk_status d p books = refl

post_settlement-Follows :
    (sha256 : Payload → ℕ) (others : Books → Books) (allocations : List Allocation) (d : Desk)
    (p : Payment) (s : PaymentStatus)
    → s ⟶* p.status
    → Follows (λ d'. d') s (post_settlement sha256 others allocations d p)
unfolding post_settlement
post_settlement-Follows sha256 others allocations d p s h =
    elim (Result-cases (
      post_repayment sha256 others (source_of p) p.principal_applied p.interest_applied
        p.fee_applied p.unapplied_amount d.books)) [
          | inl (r, e) ↦ rw e (rw settled_desk_status h)
          | inr (x, e) ↦ rw e tt
        ]

post_reversal-Follows :
    (sha256 : Payload → ℕ) (others : Books → Books) (d : Desk) (p : Payment) (s : PaymentStatus)
    → s ⟶* p.status
    → Follows (λ d'. d') s (post_reversal sha256 others d p)
unfolding post_reversal
post_reversal-Follows sha256 others d p s h =
    elim (Result-cases (reverse_repayment sha256 others (source_of p) d.books)) [
      | inl (r, e) ↦ rw e (rw reversed_desk_status h)
      | inr (x, e) ↦ rw e tt
    ]

-- The settlement of an open payment is the posting of the moved payment.
pub settle-eq :
    (sha256 : Payload → ℕ) (others : Books → Books) (d : Desk)
    → is_open d.payment.status ≡ true
    → let allocated = allocate (map (λ (r : InstallmentRow). r.state) d.rows) d.payment.amount in
      settle sha256 others d
      ≡ post_settlement sha256 others allocated.0 d
          (moved (applied_payment d.payment allocated) success none)
unfolding settle applied_payment
settle-eq sha256 others d h =
    let m = open_moves d.payment.status h in
    let allocated = allocate (map (λ (r : InstallmentRow). r.state) d.rows) d.payment.amount in
    rw (move-ok (applied_payment d.payment allocated) success none m.0 m.1)

pub settle-success :
    (sha256 : Payload → ℕ) (others : Books → Books) (d d' : Desk)
    → is_open d.payment.status ≡ true
    → settle sha256 others d ≡ ok d'
    → d'.payment.status ≡ success
unfolding post_settlement
settle-success sha256 others d d' h e =
    let allocated = allocate (map (λ (r : InstallmentRow). r.state) d.rows) d.payment.amount in
    let p = moved (applied_payment d.payment allocated) success none in
    let posted = rw (settle-eq sha256 others d h) at e in
    elim (Result-cases (
      post_repayment sha256 others (source_of p) p.principal_applied p.interest_applied
        p.fee_applied p.unapplied_amount d.books)) [
          | inl (r, f) ↦
              (let same : settled_desk allocated.0 d p r.1 ≡ d' = ground (arith, f, posted) in
                rw (← same) (
                  settled_desk_status allocated.0 d p r.1
                  ∙ moved_status (applied_payment d.payment allocated) success none))
          | inr (x, f) ↦ absurd (ground (arith, f, posted))
        ]

pub settle-Follows :
    (sha256 : Payload → ℕ) (others : Books → Books) (d : Desk)
    → is_open d.payment.status ≡ true
    → Follows (λ d'. d') d.payment.status (settle sha256 others d)
settle-Follows sha256 others d h =
    let allocated = allocate (map (λ (r : InstallmentRow). r.state) d.rows) d.payment.amount in
    let p = applied_payment d.payment allocated in
    let m = open_moves d.payment.status h in
    rw (settle-eq sha256 others d h) (
      post_settlement-Follows sha256 others allocated.0 d (moved p success none) d.payment.status
        (rw (moved_status p success none) (after (step m.1) here)))

pub reverse_payment-Follows :
    (sha256 : Payload → ℕ) (others : Books → Books) (d : Desk) (s : PaymentStatus)
    → d.payment.status ≡ success
    → s ⟶* reversed
    → Follows (λ d'. d') s (reverse_payment sha256 others d)
unfolding reverse_payment can_transition
reverse_payment-Follows sha256 others d s e h = rw (move-ok d.payment reversed none (rw e) (rw e)) (
    post_reversal-Follows sha256 others d (moved d.payment reversed none) s
      (rw (moved_status d.payment reversed none) h))

-- A call that follows another one.
pub Follows-bind :
    {A B : Type 0} (desk : A → Desk) (desk' : B → Desk) (s : PaymentStatus)
    (m : Result RepaymentError A) (k : A → Result RepaymentError B)
    → Follows desk s m
    → ((a : A) → m ≡ ok a → s ⟶* (desk a).payment.status → Follows desk' s (k a))
    → Follows desk' s (m >>= k)
Follows-bind desk desk' s (ok a) k h f = f a refl h
Follows-bind desk desk' s (err (ledger e)) k h f = tt
Follows-bind desk desk' s (err invalid_transition) k h f = h
Follows-bind desk desk' s (err integrity_error) k h f = h

pub open_ne : (s : PaymentStatus) → is_open s ≡ true → (s ≢ success) × (s ≢ reversed)
unfolding is_open
open_ne s h = (λ e. ground (arith, e), λ e. ground (arith, e))

pub from_initiated : (s : PaymentStatus) → s ≡ initiated → s ⟶* pending
unfolding can_transition
from_initiated s e = rw e (after (step refl) here)

pub to_reversed : (s : PaymentStatus) → is_open s ≡ true → s ⟶* reversed
unfolding can_transition
to_reversed s h = after (step (open_moves s h).1) (after (step refl) here)
