-- ===== src/Repayment/Settling.antt =====
-- Settling a payment and reversing it (`_settle` and `_reverse` of app/services/repayment.py).
use inpockets.Base.{
  ℕ, ◌==◌, List, [], ◌∷◌, map, if◌then◌else◌, ◌≡◌, refl, sym, ap, ◌∙◌, inl, inr, Bool-cases, All,
}
use inpockets.Base.Int.{ℤ, pos, ◌+ℤ◌, ◌-ℤ◌, int_laws, eq_of_parts, sum_ℤ}
use inpockets.Repayment.{InstallmentState, stored_status}
use inpockets.Repayment.Allocation.{Allocation}
use inpockets.Repayment.Payments.{InstallmentRow, credit_row, debit_row, credit_rows, debit_rows}

-- One component of the allocations of an installment, in all.
abbrev allotted : (Allocation → ℤ) → ℕ → List Allocation → ℤ
allotted part id = sum_ℤ (λ a. if id == a.installment_id then part a else pos 0)

abbrev fee_part : Allocation → ℤ
fee_part a = a.fee

abbrev interest_part : Allocation → ℤ
interest_part a = a.interest

abbrev principal_part : Allocation → ℤ
principal_part a = a.principal

credit_all : List Allocation → InstallmentRow → InstallmentRow
credit_all [] row = row
credit_all (a ∷ rest) row = credit_all rest (credit_row a row)

debit_all : List Allocation → InstallmentRow → InstallmentRow
debit_all [] row = row
debit_all (a ∷ rest) row = debit_all rest (debit_row a row)

map-map :
    {A B C : Type 0} (f : B → C) (g : A → B) (xs : List A)
    → map f (map g xs) ≡ map (λ x. f (g x)) xs
map-map f g [] = refl
map-map f g (x ∷ xs) = ap (λ ys. f (g x) ∷ ys) (map-map f g xs)

map-id : {A : Type 0} (xs : List A) → map (λ x. x) xs ≡ xs
map-id [] = refl
map-id (x ∷ xs) = ap (λ ys. x ∷ ys) (map-id xs)

credit_rows-map :
    (ls : List Allocation) (rows : List InstallmentRow)
    → credit_rows ls rows ≡ map (credit_all ls) rows
unfolding credit_rows credit_all
credit_rows-map [] rows = sym (map-id rows)
credit_rows-map (a ∷ rest) rows =
    credit_rows-map rest (map (credit_row a) rows) ∙ map-map (credit_all rest) (credit_row a) rows

debit_rows-map :
    (ls : List Allocation) (rows : List InstallmentRow)
    → debit_rows ls rows ≡ map (debit_all ls) rows
unfolding debit_rows debit_all
debit_rows-map [] rows = sym (map-id rows)
debit_rows-map (a ∷ rest) rows =
    debit_rows-map rest (map (debit_row a) rows) ∙ map-map (debit_all rest) (debit_row a) rows

-- An installment with its payments moved by what the allocations hold for it.
abbrev credited : List Allocation → InstallmentState → InstallmentState
credited ls i = record i {
  fee_paid = i.fee_paid +ℤ allotted fee_part i.id ls;
  interest_paid = i.interest_paid +ℤ allotted interest_part i.id ls;
  principal_paid = i.principal_paid +ℤ allotted principal_part i.id ls;
}

abbrev debited : List Allocation → InstallmentState → InstallmentState
debited ls i = record i {
  fee_paid = i.fee_paid -ℤ allotted fee_part i.id ls;
  interest_paid = i.interest_paid -ℤ allotted interest_part i.id ls;
  principal_paid = i.principal_paid -ℤ allotted principal_part i.id ls;
}

state_eq :
    (i : InstallmentState) (f f' n n' p p' : ℤ)
    → f ≡ f'
    → n ≡ n'
    → p ≡ p'
    → ◌≡◌ {A = InstallmentState}
        (record i { fee_paid = f; interest_paid = n; principal_paid = p })
        (record i { fee_paid = f'; interest_paid = n'; principal_paid = p' })
state_eq i f f' n n' p p' ef en ep = cc

add_zero : (x : ℤ) → x ≡ x +ℤ pos 0
add_zero x = eq_of_parts _ _ (omega int_laws)

sub_zero : (x : ℤ) → x ≡ x -ℤ pos 0
sub_zero x = eq_of_parts _ _ (omega int_laws)

add_next : (x y z : ℤ) → x +ℤ y +ℤ z ≡ x +ℤ (y +ℤ z)
add_next x y z = eq_of_parts _ _ (omega int_laws)

sub_next : (x y z : ℤ) → x -ℤ y -ℤ z ≡ x -ℤ (y +ℤ z)
sub_next x y z = eq_of_parts _ _ (omega int_laws)

add_skip : (x z : ℤ) → x +ℤ z ≡ x +ℤ (pos 0 +ℤ z)
add_skip x z = eq_of_parts _ _ (omega int_laws)

sub_skip : (x z : ℤ) → x -ℤ z ≡ x -ℤ (pos 0 +ℤ z)
sub_skip x z = eq_of_parts _ _ (omega int_laws)

add_sub : (x z : ℤ) → x +ℤ z -ℤ z ≡ x
add_sub x z = eq_of_parts _ _ (omega int_laws)

credit_all-state :
    (ls : List Allocation) (row : InstallmentRow)
    → (credit_all ls row).state ≡ credited ls row.state
unfolding credit_all credit_row
credit_all-state [] row =
    state_eq row.state _ _ _ _ _ _ (add_zero row.state.fee_paid) (add_zero row.state.interest_paid)
      (add_zero row.state.principal_paid)
credit_all-state (a ∷ rest) row =
    let i = row.state in
    credit_all-state rest (credit_row a row) ∙ elim (Bool-cases (i.id == a.installment_id)) [
      | inl t ↦ rw t (
          state_eq i _ _ _ _ _ _ (add_next i.fee_paid a.fee (allotted fee_part i.id rest))
            (add_next i.interest_paid a.interest (allotted interest_part i.id rest))
            (add_next i.principal_paid a.principal (allotted principal_part i.id rest)))
      | inr f ↦ rw f (
          state_eq i _ _ _ _ _ _ (add_skip i.fee_paid (allotted fee_part i.id rest))
            (add_skip i.interest_paid (allotted interest_part i.id rest))
            (add_skip i.principal_paid (allotted principal_part i.id rest)))
    ]

debit_all-state :
    (ls : List Allocation) (row : InstallmentRow) → (debit_all ls row).state ≡ debited ls row.state
unfolding debit_all debit_row
debit_all-state [] row =
    state_eq row.state _ _ _ _ _ _ (sub_zero row.state.fee_paid) (sub_zero row.state.interest_paid)
      (sub_zero row.state.principal_paid)
debit_all-state (a ∷ rest) row =
    let i = row.state in
    debit_all-state rest (debit_row a row) ∙ elim (Bool-cases (i.id == a.installment_id)) [
      | inl t ↦ rw t (
          state_eq i _ _ _ _ _ _ (sub_next i.fee_paid a.fee (allotted fee_part i.id rest))
            (sub_next i.interest_paid a.interest (allotted interest_part i.id rest))
            (sub_next i.principal_paid a.principal (allotted principal_part i.id rest)))
      | inr f ↦ rw f (
          state_eq i _ _ _ _ _ _ (sub_skip i.fee_paid (allotted fee_part i.id rest))
            (sub_skip i.interest_paid (allotted interest_part i.id rest))
            (sub_skip i.principal_paid (allotted principal_part i.id rest)))
    ]

debited-credited : (ls : List Allocation) (i : InstallmentState) → debited ls (credited ls i) ≡ i
debited-credited ls i =
    state_eq i _ _ _ _ _ _ (add_sub i.fee_paid (allotted fee_part i.id ls))
      (add_sub i.interest_paid (allotted interest_part i.id ls))
      (add_sub i.principal_paid (allotted principal_part i.id ls))

-- The stored status of a row is the one that its amounts give.
abbrev pub IsConsistent : InstallmentRow → Type 0
IsConsistent row = row.status ≡ stored_status row.state

credit_all-IsConsistent :
    (ls : List Allocation) (row : InstallmentRow)
    → IsConsistent row
    → IsConsistent (credit_all ls row)
unfolding credit_all credit_row
credit_all-IsConsistent [] row h = h
credit_all-IsConsistent (a ∷ rest) row h =
    credit_all-IsConsistent rest (credit_row a row)
      (elim (Bool-cases (row.state.id == a.installment_id)) [ inl t ↦ rw t | inr f ↦ rw f h ])

debit_all-IsConsistent :
    (ls : List Allocation) (row : InstallmentRow)
    → IsConsistent row
    → IsConsistent (debit_all ls row)
unfolding debit_all debit_row
debit_all-IsConsistent [] row h = h
debit_all-IsConsistent (a ∷ rest) row h =
    debit_all-IsConsistent rest (debit_row a row)
      (elim (Bool-cases (row.state.id == a.installment_id)) [ inl t ↦ rw t | inr f ↦ rw f h ])

row_eq : (r s : InstallmentRow) → r.state ≡ s.state → r.status ≡ s.status → r ≡ s
row_eq r s e f = cc

debit_all-credit_all :
    (ls : List Allocation) (row : InstallmentRow)
    → IsConsistent row
    → debit_all ls (credit_all ls row) ≡ row
debit_all-credit_all ls row h =
    let back : InstallmentRow = debit_all ls (credit_all ls row) in
    let same : back.state ≡ row.state =
      debit_all-state ls (credit_all ls row)
      ∙ ap (debited ls) (credit_all-state ls row)
      ∙ debited-credited ls row.state in
    row_eq back row same (
      debit_all-IsConsistent ls (credit_all ls row) (credit_all-IsConsistent ls row h)
      ∙ ap stored_status same
      ∙ sym h)

-- Taking away what was added gives back the rows: amounts and statuses.
pub debit_rows-credit_rows :
    (ls : List Allocation) (rows : List InstallmentRow)
    → All IsConsistent rows
    → debit_rows ls (credit_rows ls rows) ≡ rows
debit_rows-credit_rows ls rows h =
    ap (debit_rows ls) (credit_rows-map ls rows)
    ∙ debit_rows-map ls (map (credit_all ls) rows)
    ∙ map-map (debit_all ls) (credit_all ls) rows
    ∙ restored rows h
  where
    restored :
        (rows : List InstallmentRow)
        → All IsConsistent rows
        → map (λ r. debit_all ls (credit_all ls r)) rows ≡ rows
    restored [] h = refl
    restored (r ∷ rest) h = cc (debit_all-credit_all ls r h.0, restored rest h.1)
