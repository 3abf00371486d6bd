-- ===== src/Repayment/Order.antt =====
-- The order in which a payment is allocated (`allocate` of app/domain/repayment.py): installments
-- by their number, and each recorded allocation within its installment.
use inpockets.Base.{
  ◌≤◌, ◌≡◌, refl, ap, ◌∙◌, List, [], ◌∷◌, ◌++◌, arith, Bool-cases, leb→le, All-mono, All, leb, inl,
  inr, ◌⊎◌,
}
use inpockets.Base.Int.{
  ℤ, pos, ◌+ℤ◌, ◌≤ℤ◌, int_laws, sum_ℤ, ltb_ℤ, sign_cases, min_ℤ, min_ℤ_laws, eq_of_parts, eq_parts,
}
use inpockets.Repayment.{InstallmentState, outstanding}
use inpockets.Repayment.Allocation.{
  total, insert_by_number, sort_by_number, take_share, add_share, allocate_sorted, allocate,
}
use inpockets.Repayment.Waterfall.{
  IsOwing, AllOwing, IsWaterfall, outstanding_total, left_after, allocate_sorted_stop,
  allocate_sorted_go, allocate_sorted-IsWaterfall,
}

-- Sorting keeps what holds of every installment, and the sum over them.
module _ (P : InstallmentState → Type 0) where
  All-insert :
      (i : InstallmentState) (is : List InstallmentState)
      → P i
      → All P is
      → All P (insert_by_number i is)
  unfolding insert_by_number
  All-insert i [] p h = (p, tt)
  All-insert i (j ∷ is) p h = ground (arith, All-insert i is p h.1)

  pub All-sort : (is : List InstallmentState) → All P is → All P (sort_by_number is)
  unfolding sort_by_number
  All-sort [] h = tt
  All-sort (i ∷ is) h = All-insert i (sort_by_number is) h.0 (All-sort is h.1)

outstanding_total-insert :
    (i : InstallmentState) (is : List InstallmentState)
    → outstanding_total (insert_by_number i is) ≡ outstanding i +ℤ outstanding_total is
unfolding insert_by_number
outstanding_total-insert i [] = refl
outstanding_total-insert i (j ∷ is) = elim (Bool-cases (leb i.number j.number)) [
  | inl t ↦ rw t
  | inr f ↦ rw f (eq_of_parts _ _ (omega (int_laws, eq_parts (outstanding_total-insert i is))))
]

pub outstanding_total-sort :
    (is : List InstallmentState) → outstanding_total (sort_by_number is) ≡ outstanding_total is
unfolding sort_by_number
outstanding_total-sort [] = refl
outstanding_total-sort (i ∷ is) =
    outstanding_total-insert i (sort_by_number is)
    ∙ ap (λ s. outstanding i +ℤ s) (outstanding_total-sort is)

-- Neighbours are in the order of their numbers.
abbrev pub IsSorted : List InstallmentState → Type 0
IsSorted [] = Unit
IsSorted (i ∷ is) = All (λ j. i.number ≤ j.number) is × IsSorted is

insert-IsSorted :
    (i : InstallmentState) (is : List InstallmentState)
    → IsSorted is
    → IsSorted (insert_by_number i is)
unfolding insert_by_number
insert-IsSorted i [] h = (tt, tt)
insert-IsSorted i (j ∷ is) h = elim (Bool-cases (leb i.number j.number)) [
  | inl t ↦
      (let first : i.number ≤ j.number = leb→le _ _ t in
        rw t (
          (
            first,
            All-mono (λ k. j.number ≤ k.number) (λ k. i.number ≤ k.number) is (λ k le. omega arith)
                h.0,
          ),
          h,
        ))
  | inr f ↦
      (let first : j.number ≤ i.number = ground arith in
        rw f (All-insert (λ k. j.number ≤ k.number) i is first h.0, insert-IsSorted i is h.1))
]

-- The sorted installments are in the order of their numbers.
pub sort-IsSorted : (is : List InstallmentState) → IsSorted (sort_by_number is)
unfolding sort_by_number
sort-IsSorted [] = tt
sort-IsSorted (i ∷ is) = insert-IsSorted i (sort_by_number is) (sort-IsSorted is)

allocate_sorted_done :
    (is : List InstallmentState) (r : ℤ) → r ≤ℤ pos 0 → allocate_sorted is r ≡ ([], r)
unfolding allocate_sorted
allocate_sorted_done [] r h = refl
allocate_sorted_done (i ∷ is) r h = allocate_sorted_stop i is r h

-- The loop over two stretches of installments.
allocate_sorted-append :
    (xs ys : List InstallmentState) (r : ℤ)
    → allocate_sorted (xs ++ ys) r ≡ (
      (allocate_sorted xs r).0 ++ (allocate_sorted ys (allocate_sorted xs r).1).0,
      (allocate_sorted ys (allocate_sorted xs r).1).1,
    )
unfolding allocate_sorted add_share
allocate_sorted-append [] ys r = refl
allocate_sorted-append (x ∷ xs) ys r = elim (sign_cases r) [
  | inl stop ↦
      rw (allocate_sorted_stop x xs r stop)
        (rw (allocate_sorted_done ys r stop) (allocate_sorted_stop x (xs ++ ys) r stop))
  | inr go ↦ rw (allocate_sorted_go x xs r go) (
      allocate_sorted_go x (xs ++ ys) r go
      ∙ rw (allocate_sorted-append xs ys (left_after x r))
          (elim (Bool-cases (ltb_ℤ (pos 0) (total (take_share x r)))) [
            | inl t ↦ rw t
            | inr f ↦ rw f
          ]))
]

-- The installments that come first are covered first: of two stretches of installments, the later one
-- gets something only if the earlier one is covered in full, where the amount is not negative and no
-- part of the earlier ones is paid below zero or past what is due.
pub oldest_first :
    (xs ys : List InstallmentState) (r : ℤ)
    → AllOwing xs
    → pos 0 ≤ℤ r
    → let (out, left) = allocate_sorted xs r in
      let (later, rest) = allocate_sorted ys left in
      (allocate_sorted (xs ++ ys) r ≡ (out ++ later, rest))
      × ((later ≡ []) ⊎ (sum_ℤ total out ≡ outstanding_total xs))
oldest_first xs ys r h p =
    let w = allocate_sorted-IsWaterfall xs r h p in
    let (out, left) = allocate_sorted xs r in
    (
      allocate_sorted-append xs ys r,
      elim (sign_cases left) [
        | inl none_left ↦ inl (rw (allocate_sorted_done ys left none_left))
        | inr some_left ↦ inr (
            eq_of_parts _ _ (
              omega
                (int_laws, eq_parts w.taken, eq_parts w.rest, min_ℤ_laws r (outstanding_total xs))))
      ],
    )

-- The allocations of a payment that is not negative add up to the smaller of it and of what is
-- outstanding in all, and the rest of it is left over, where no part of an installment is paid below
-- zero or past what is due.
pub allocate-IsWaterfall :
    (is : List InstallmentState) (amount : ℤ)
    → AllOwing is
    → pos 0 ≤ℤ amount
    → IsWaterfall is amount (allocate is amount).0 (allocate is amount).1
unfolding allocate
allocate-IsWaterfall is amount h p =
    let w = allocate_sorted-IsWaterfall (sort_by_number is) amount (All-sort IsOwing is h) p in
    record { taken = w.taken ∙ ap (min_ℤ amount) (outstanding_total-sort is); rest = w.rest }
