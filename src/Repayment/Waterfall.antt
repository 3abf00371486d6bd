-- ===== src/Repayment/Waterfall.antt =====
-- The allocation of a payment is a waterfall over the installments, oldest first (`allocate` of
-- app/domain/repayment.py): nothing is lost, nothing goes past what is due, and nothing is left
-- over while something is due.
use inpockets.Base.{◌≡◌, refl, true, false, List, [], ◌∷◌, arith, Bool-cases, All, inl, inr, ◌⊎◌}
use inpockets.Base.Int.{
  ℤ, pos, ◌+ℤ◌, ◌-ℤ◌, ◌≤ℤ◌, ◌<ℤ◌, int_laws, sum_ℤ, leb_ℤ, ltb_ℤ, sign_cases, min_ℤ, min_ℤ_laws,
  eq_of_parts, eq_parts, ltb_ℤ→ge,
}
use inpockets.Repayment.{InstallmentState, outstanding}
use inpockets.Repayment.Allocation.{Allocation, total, take_share, add_share, allocate_sorted}

-- No part of an installment is paid below zero or past what is due.
pub record IsOwing (i : InstallmentState) : Type 0 where
  pub principal_from : pos 0 ≤ℤ i.principal_paid
  pub principal_to : i.principal_paid ≤ℤ i.principal_due
  pub interest_from : pos 0 ≤ℤ i.interest_paid
  pub interest_to : i.interest_paid ≤ℤ i.interest_due
  pub fee_from : pos 0 ≤ℤ i.fee_paid
  pub fee_to : i.fee_paid ≤ℤ i.fee_due

-- An allocation stays within what the installment owes of each part, and a later part gets
-- something only if the parts before it are covered.
pub record IsWithin (i : InstallmentState) (a : Allocation) : Type 0 where
  pub fee_from : pos 0 ≤ℤ a.fee
  pub fee_to : a.fee ≤ℤ i.fee_due -ℤ i.fee_paid
  pub interest_from : pos 0 ≤ℤ a.interest
  pub interest_to : a.interest ≤ℤ i.interest_due -ℤ i.interest_paid
  pub principal_from : pos 0 ≤ℤ a.principal
  pub principal_to : a.principal ≤ℤ i.principal_due -ℤ i.principal_paid
  pub fee_first : (i.fee_due -ℤ i.fee_paid ≤ℤ a.fee) ⊎ (a.interest +ℤ a.principal ≤ℤ pos 0)
  pub interest_next : (i.interest_due -ℤ i.interest_paid ≤ℤ a.interest) ⊎ (a.principal ≤ℤ pos 0)

module _ (i : InstallmentState) (r : ℤ) (owing : IsOwing i) (h : pos 0 ≤ℤ r) where
  -- What an installment takes of a payment that is not negative stays within what it owes of each
  -- part, fees first, then interest, then principal, where nothing is paid below zero or past what is
  -- due.
  pub take_share-IsWithin : IsWithin i (take_share i r)
  unfolding take_share
  take_share-IsWithin =
      let m = min_ℤ_laws r (i.fee_due -ℤ i.fee_paid) in
      let f = min_ℤ r (i.fee_due -ℤ i.fee_paid) in
      let n = min_ℤ_laws (r -ℤ f) (i.interest_due -ℤ i.interest_paid) in
      let g = min_ℤ (r -ℤ f) (i.interest_due -ℤ i.interest_paid) in
      let k = min_ℤ_laws (r -ℤ f -ℤ g) (i.principal_due -ℤ i.principal_paid) in
      record {
        fee_from = omega (int_laws, m, n, k);
        fee_to = omega (int_laws, m, n, k);
        interest_from = omega (int_laws, m, n, k);
        interest_to = omega (int_laws, m, n, k);
        principal_from = omega (int_laws, m, n, k);
        principal_to = omega (int_laws, m, n, k);
        fee_first = omega (int_laws, m, n, k);
        interest_next = omega (int_laws, m, n, k);
      }

  -- What an installment takes is the smaller of what remains and what it owes.
  pub take_share_total : total (take_share i r) ≡ min_ℤ r (outstanding i)
  unfolding take_share
  take_share_total =
      let m = min_ℤ_laws r (i.fee_due -ℤ i.fee_paid) in
      let f = min_ℤ r (i.fee_due -ℤ i.fee_paid) in
      let n = min_ℤ_laws (r -ℤ f) (i.interest_due -ℤ i.interest_paid) in
      let g = min_ℤ (r -ℤ f) (i.interest_due -ℤ i.interest_paid) in
      let k = min_ℤ_laws (r -ℤ f -ℤ g) (i.principal_due -ℤ i.principal_paid) in
      eq_of_parts _ _ (omega (int_laws, m, n, k, min_ℤ_laws r (outstanding i)))

abbrev pub AllOwing : List InstallmentState → Type 0
AllOwing = All IsOwing

pub outstanding_nonneg : (i : InstallmentState) → IsOwing i → pos 0 ≤ℤ outstanding i
outstanding_nonneg i h = omega int_laws

abbrev pub outstanding_total : List InstallmentState → ℤ
outstanding_total = sum_ℤ outstanding

total_nonneg : (is : List InstallmentState) → AllOwing is → pos 0 ≤ℤ outstanding_total is
total_nonneg [] h = omega arith
total_nonneg (i ∷ is) h = omega (int_laws, outstanding_nonneg i h.0, total_nonneg is h.1)

-- What the loop does with an amount: the allocations take the smaller of the amount and of what is
-- outstanding in all, and the rest is left over.
pub record IsWaterfall (is : List InstallmentState) (amount : ℤ) (out : List Allocation) (left : ℤ)
    : Type 0 where
  pub taken : sum_ℤ total out ≡ min_ℤ amount (outstanding_total is)
  pub rest : sum_ℤ total out +ℤ left ≡ amount

add_share_sum :
    (a : Allocation) (p : List Allocation × ℤ)
    → pos 0 ≤ℤ total a
    → (sum_ℤ total (add_share a p).0 ≡ total a +ℤ sum_ℤ total p.0) × ((add_share a p).1 ≡ p.1)
unfolding add_share
add_share_sum a p h = elim (Bool-cases (ltb_ℤ (pos 0) (total a))) [
  | inl t ↦ (rw t, refl)
  | inr f ↦ (rw f (eq_of_parts _ _ (omega (int_laws, ltb_ℤ→ge (pos 0) (total a) f))), refl)
]

-- The amount that the rest of the loop starts from.
abbrev pub left_after : InstallmentState → ℤ → ℤ
left_after i r =
    r -ℤ (take_share i r).fee -ℤ (take_share i r).interest -ℤ (take_share i r).principal

left_after-total : (i : InstallmentState) (r : ℤ) → left_after i r ≡ r -ℤ total (take_share i r)
left_after-total i r = eq_of_parts _ _ (omega int_laws)

pub allocate_sorted_stop :
    (i : InstallmentState) (is : List InstallmentState) (r : ℤ)
    → r ≤ℤ pos 0
    → allocate_sorted (i ∷ is) r ≡ ([], r)
unfolding allocate_sorted
allocate_sorted_stop i is r h = let t : leb_ℤ r (pos 0) ≡ true = ground arith in rw t

pub allocate_sorted_go :
    (i : InstallmentState) (is : List InstallmentState) (r : ℤ)
    → pos 0 <ℤ r
    → allocate_sorted (i ∷ is) r ≡ add_share (take_share i r) (allocate_sorted is (left_after i r))
unfolding allocate_sorted
allocate_sorted_go i is r h = let t : leb_ℤ r (pos 0) ≡ false = ground arith in rw t

pub allocate_sorted-IsWaterfall :
    (is : List InstallmentState) (r : ℤ)
    → AllOwing is
    → pos 0 ≤ℤ r
    → IsWaterfall is r (allocate_sorted is r).0 (allocate_sorted is r).1
unfolding allocate_sorted
allocate_sorted-IsWaterfall [] r h p = record {
  taken = eq_of_parts _ _ (omega (int_laws, min_ℤ_laws r (pos 0)));
  rest = eq_of_parts _ _ (omega int_laws);
}
allocate_sorted-IsWaterfall (i ∷ is) r h p = elim (sign_cases r) [
  | inl stop ↦ rw (allocate_sorted_stop i is r stop) (record {
    taken =
        eq_of_parts _ _
          (omega (int_laws, min_ℤ_laws r (outstanding_total (i ∷ is)), total_nonneg (i ∷ is) h));
    rest = eq_of_parts _ _ (omega int_laws);
  })
  | inr go ↦
      (let took = eq_parts (take_share_total i r h.0 p) in
        let m = min_ℤ_laws r (outstanding i) in
        let o = outstanding_nonneg i h.0 in
        let u = total_nonneg is h.1 in
        let l = eq_parts (left_after-total i r) in
        let next : pos 0 ≤ℤ left_after i r = omega (int_laws, took, m, o, l) in
        let w = allocate_sorted-IsWaterfall is (left_after i r) h.1 next in
        let n = min_ℤ_laws (left_after i r) (outstanding_total is) in
        let k = min_ℤ_laws r (outstanding_total (i ∷ is)) in
        let a =
          add_share_sum (take_share i r) (allocate_sorted is (left_after i r))
            (omega (int_laws, took, m, o)) in
        let s = eq_parts a.0 in
        let t = eq_parts w.taken in
        let v = eq_parts w.rest in
        rw (allocate_sorted_go i is r go) (record {
          taken = eq_of_parts _ _ (omega (int_laws, took, m, o, u, l, n, k, s, t));
          rest = rw a.1 (eq_of_parts _ _ (omega (int_laws, l, s, v)));
        }))
]
