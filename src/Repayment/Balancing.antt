-- ===== src/Repayment/Balancing.antt =====
-- What a settlement posts is balanced (`_settle` of app/services/repayment.py with `post_repayment`
-- of app/services/ledger.py).
use inpockets.Base.{List, [], ◌∷◌, All, Bool-cases, ◌≡◌, sym, subst, inl, inr, arith}
use inpockets.Base.Int.{
  ℤ, pos, ◌+ℤ◌, ◌≤ℤ◌, ◌<ℤ◌, int_laws, eq_of_parts, eq_parts, sum_ℤ, ltb_ℤ, min_ℤ_laws, sign_cases,
}
use inpockets.Ledger.Lines.{IsBalanced}
use inpockets.Ledger.Business.{repayment_lines}
use inpockets.Ledger.Postings.{repayment_lines-IsBalanced}
use inpockets.Repayment.{InstallmentState, outstanding}
use inpockets.Repayment.Allocation.{
  Allocation, total, allocate, allocate_sorted, sort_by_number, take_share, add_share,
}
use inpockets.Repayment.Waterfall.{
  IsOwing, AllOwing, outstanding_nonneg, left_after, take_share-IsWithin, take_share_total,
  allocate_sorted_stop, allocate_sorted_go,
}
use inpockets.Repayment.Order.{All-sort, allocate-IsWaterfall}
use inpockets.Repayment.Payments.{Payment, applied_payment}

-- No part of an allocation is negative.
abbrev IsPaid : Allocation → Type 0
IsPaid a = (pos 0 ≤ℤ a.fee) × (pos 0 ≤ℤ a.interest) × (pos 0 ≤ℤ a.principal)

-- The loop allocates no negative parts and leaves no negative rest.
IsClean : List Allocation × ℤ → Type 0
IsClean (out, left) = All IsPaid out × (pos 0 ≤ℤ left)

add_share-IsClean :
    (a : Allocation) (p : List Allocation × ℤ) → IsPaid a → IsClean p → IsClean (add_share a p)
unfolding add_share IsClean
add_share-IsClean a (out, left) h c = elim (Bool-cases (ltb_ℤ (pos 0) (total a))) [
  | inl t ↦ rw t ((h, c.0), c.1)
  | inr f ↦ rw f c
]

left_after_nonneg :
    (i : InstallmentState) (r : ℤ) → IsOwing i → pos 0 ≤ℤ r → pos 0 ≤ℤ left_after i r
left_after_nonneg i r h p = omega (
  int_laws,
  eq_parts (take_share_total i r h p),
  min_ℤ_laws r (outstanding i),
  outstanding_nonneg i h,
)

allocate_sorted-IsClean :
    (is : List InstallmentState) (r : ℤ) → AllOwing is → pos 0 ≤ℤ r → IsClean (allocate_sorted is r)
unfolding allocate_sorted IsClean
allocate_sorted-IsClean [] r h p = (tt, p)
allocate_sorted-IsClean (i ∷ is) r h p = elim (sign_cases r) [
  | inl stop ↦ rw (allocate_sorted_stop i is r stop) (tt, p)
  | inr go ↦
      (let w = take_share-IsWithin i r h.0 p in
        subst IsClean (sym (allocate_sorted_go i is r go)) (
          add_share-IsClean (take_share i r) _ (w.fee_from, w.interest_from, w.principal_from)
            (allocate_sorted-IsClean is (left_after i r) h.1 (left_after_nonneg i r h.0 p))))
]

sum_total :
    (ls : List Allocation)
    → sum_ℤ total ls
      ≡ sum_ℤ (λ (a : Allocation). a.principal) ls
        +ℤ sum_ℤ (λ (a : Allocation). a.interest) ls
        +ℤ sum_ℤ (λ (a : Allocation). a.fee) ls
sum_total [] = eq_of_parts _ _ (omega int_laws)
sum_total (a ∷ ls) = eq_of_parts _ _ (omega (int_laws, eq_parts (sum_total ls)))

sums_nonneg :
    (ls : List Allocation)
    → All IsPaid ls
    → (pos 0 ≤ℤ sum_ℤ (λ (a : Allocation). a.principal) ls)
      × (pos 0 ≤ℤ sum_ℤ (λ (a : Allocation). a.interest) ls)
      × (pos 0 ≤ℤ sum_ℤ (λ (a : Allocation). a.fee) ls)
sums_nonneg [] h = (omega arith, omega arith, omega arith)
sums_nonneg (a ∷ ls) h =
    let (p, i, f) = sums_nonneg ls h.1 in
    (omega (int_laws, h.0.2, p), omega (int_laws, h.0.1, i), omega (int_laws, h.0.0, f))

-- What the settlement of a positive payment posts is balanced, where no part of an installment is
-- paid below zero or past what is due: the principal, the interest, the fees and the rest that are
-- credited are none negative and add up to what the bank received.
pub settlement-IsBalanced :
    (p : Payment) (installments : List InstallmentState)
    → AllOwing installments
    → pos 0 <ℤ p.amount
    → let q = applied_payment p (allocate installments p.amount) in
      IsBalanced (
        repayment_lines q.amount q.principal_applied q.interest_applied q.fee_applied
          q.unapplied_amount)
unfolding applied_payment allocate IsClean
settlement-IsBalanced p is h positive =
    let (out, left) = allocate_sorted (sort_by_number is) p.amount in
    let nonneg : pos 0 ≤ℤ p.amount = omega int_laws in
    let clean =
      allocate_sorted-IsClean (sort_by_number is) p.amount (All-sort IsOwing is h) nonneg in
    let (n, i, f) = sums_nonneg out clean.0 in
    let w = allocate-IsWaterfall is p.amount h nonneg in
    repayment_lines-IsBalanced p.amount _ _ _ left positive n i f clean.1
      (eq_of_parts _ _ (omega (int_laws, eq_parts w.rest, eq_parts (sum_total out))))
