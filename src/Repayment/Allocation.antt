-- ===== src/Repayment/Allocation.antt =====
-- The allocation of a payment to installments (`allocate` of app/domain/repayment.py).
use inpockets.Base.{ℕ, leb, List, [], ◌∷◌, if◌then◌else◌}
use inpockets.Base.Int.{ℤ, pos, ◌+ℤ◌, ◌-ℤ◌, leb_ℤ, ltb_ℤ, min_ℤ}
use inpockets.Repayment.{InstallmentState}

pub record Allocation : Type 0 where
  pub installment_id : ℕ
  pub fee : ℤ
  pub interest : ℤ
  pub principal : ℤ

abbrev pub total : Allocation → ℤ
total a = a.fee +ℤ a.interest +ℤ a.principal

-- `sorted(installments, key=lambda i: i.number)`; the sort is stable.
unfoldable pub insert_by_number : InstallmentState → List InstallmentState → List InstallmentState
insert_by_number i [] = i ∷ []
insert_by_number i (j ∷ rest) =
    let later = insert_by_number i rest in if leb i.number j.number then i ∷ j ∷ rest else j ∷ later

unfoldable pub sort_by_number : List InstallmentState → List InstallmentState
unfolding insert_by_number
sort_by_number [] = []
sort_by_number (i ∷ rest) = insert_by_number i (sort_by_number rest)

-- What one installment takes of what remains: fees, then interest, then principal.
unfoldable pub take_share : InstallmentState → ℤ → Allocation
take_share i remaining =
    let fee = min_ℤ remaining (i.fee_due -ℤ i.fee_paid) in
    let after_fee = remaining -ℤ fee in
    let interest = min_ℤ after_fee (i.interest_due -ℤ i.interest_paid) in
    let after_interest = after_fee -ℤ interest in
    let principal = min_ℤ after_interest (i.principal_due -ℤ i.principal_paid) in
    record { installment_id = i.id; fee = fee; interest = interest; principal = principal }

-- An allocation is recorded only if it moves money.
unfoldable pub add_share : Allocation → List Allocation × ℤ → List Allocation × ℤ
add_share a (out, left) = (if ltb_ℤ (pos 0) (total a) then a ∷ out else out, left)

-- The loop; it ends when nothing remains.
unfoldable pub allocate_sorted : List InstallmentState → ℤ → List Allocation × ℤ
allocate_sorted [] remaining = ([], remaining)
allocate_sorted (i ∷ rest) remaining =
    let a = take_share i remaining in
    let later =
      add_share a (allocate_sorted rest (remaining -ℤ a.fee -ℤ a.interest -ℤ a.principal)) in
    if leb_ℤ remaining (pos 0) then ([], remaining) else later

unfoldable pub allocate : List InstallmentState → ℤ → List Allocation × ℤ
unfolding sort_by_number
allocate installments amount = allocate_sorted (sort_by_number installments) amount
