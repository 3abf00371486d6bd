-- ===== src/Repayment/Settlement.antt =====
-- A settlement as a whole (`_settle` and `_reverse` of app/services/repayment.py): what it posts to
-- the ledger is balanced, and a reversal undoes what it did to the installments.
use inpockets.Base.{
  ℕ, true, List, [], ◌++◌, map, none, ok, ◌≡◌, ap, ◌∙◌, arith, inl, inr, Result-cases, All,
}
use inpockets.Base.Int.{ℤ}
use inpockets.Ledger.{Payload}
use inpockets.Ledger.Tables.{Books}
use inpockets.Ledger.Business.{post_repayment, reverse_repayment}
use inpockets.Repayment.{success, reversed, is_open, can_transition, InstallmentState}
use inpockets.Repayment.Allocation.{Allocation, allocate}
use inpockets.Repayment.Payments.{
  Payment, Desk, InstallmentRow, moved, source_of, applied_payment, settled_desk, reversed_desk,
  post_settlement, post_reversal, settle, reverse_payment, debit_rows, credit_rows,
}
use inpockets.Repayment.Lifecycle.{settle-eq, settle-success, move-ok}
use inpockets.Repayment.Settling.{IsConsistent, debit_rows-credit_rows}

abbrev pub states : Desk → List InstallmentState
states d = map (λ (r : InstallmentRow). r.state) d.rows

abbrev pub allocated : Desk → List Allocation × ℤ
allocated d = allocate (states d) d.payment.amount

settled_payment : Desk → Payment
settled_payment d = moved (applied_payment d.payment (allocated d)) success none

-- A settlement that succeeded has the settled desk, with the books that the ledger returned.
settle-inversion :
    (sha256 : Payload → ℕ) (others : Books → Books) (d d' : Desk)
    → is_open d.payment.status ≡ true
    → settle sha256 others d ≡ ok d'
    → (books : Books) × (d' ≡ settled_desk (allocated d).0 d (settled_payment d) books)
unfolding post_settlement settled_payment
settle-inversion sha256 others d d' h e =
    let p = moved (applied_payment d.payment (allocated d)) success none in
    let posted = rw (settle-eq sha256 others d h) at e in
    elim (Result-cases (
      post_repayment sha256 others (source_of p) p.principal_applied p.interest_applied
        p.fee_applied p.unapplied_amount d.books)) [
          | inl (r, f) ↦ (r.1, ground (arith, f, posted))
          | inr (x, f) ↦ absurd (ground (arith, f, posted))
        ]

reverse-inversion :
    (sha256 : Payload → ℕ) (others : Books → Books) (d d' : Desk)
    → d.payment.status ≡ success
    → reverse_payment sha256 others d ≡ ok d'
    → (books : Books) × (d' ≡ reversed_desk d (moved d.payment reversed none) books)
unfolding reverse_payment post_reversal can_transition
reverse-inversion sha256 others d d' s e =
    let p = moved d.payment reversed none in
    let posted : post_reversal sha256 others d p ≡ ok d' =
      rw (move-ok d.payment reversed none (rw s) (rw s)) at e in
    elim (Result-cases (reverse_repayment sha256 others (source_of p) d.books)) [
      | inl (r, f) ↦ (r.1, ground (arith, f, posted))
      | inr (x, f) ↦ absurd (ground (arith, f, posted))
    ]

settled_desk_rows :
    (ls : List Allocation) (d : Desk) (p : Payment) (books : Books)
    → ((settled_desk ls d p books).rows ≡ credit_rows ls d.rows)
      × ((settled_desk ls d p books).allocations ≡ d.allocations ++ ls)
unfolding settled_desk
settled_desk_rows ls d p books = ground arith

-- An open payment without allocations that is settled and then reversed, with nothing in between,
-- leaves every installment as it was, the amounts paid and the stored status, where the stored
-- statuses were those that the amounts give.
pub settle_then_reverse :
    (sha256 : Payload → ℕ) (others others' : Books → Books) (d d' d'' : Desk)
    → is_open d.payment.status ≡ true
    → d.allocations ≡ []
    → All IsConsistent d.rows
    → settle sha256 others d ≡ ok d'
    → reverse_payment sha256 others' d' ≡ ok d''
    → d''.rows ≡ d.rows
unfolding reversed_desk
settle_then_reverse sha256 others others' d d' d'' is_settleable fresh consistent e f =
    let (books, same) = settle-inversion sha256 others d d' is_settleable e in
    let (books', same') =
      reverse-inversion sha256 others' d' d'' (settle-success sha256 others d d' is_settleable e)
        f in
    let p = settled_payment d in
    let ls = (allocated d).0 in
    let parts = settled_desk_rows ls d p books in
    let rows : d'.rows ≡ credit_rows ls d.rows = ap (λ (x : Desk). x.rows) same ∙ parts.0 in
    let held : d'.allocations ≡ ls =
      ap (λ (x : Desk). x.allocations) same
      ∙ parts.1
      ∙ ap (λ (xs : List Allocation). xs ++ ls) fresh in
    ap (λ (x : Desk). x.rows) same'
    ∙ ap (λ (xs : List Allocation). debit_rows xs d'.rows) held
    ∙ ap (debit_rows ls) rows
    ∙ debit_rows-credit_rows ls d.rows consistent
