-- ===== src/Ledger/Postings.antt =====
-- The lines that the business posts are balanced (`post_disbursement` and `post_repayment` of
-- app/services/ledger.py), so the ledger never refuses them for their amounts.
use inpockets.Base.{
  ℕ, zero, suc, ◌+◌, ◌≤◌, ◌<◌, ◌≡◌, refl, subst, List, [], ◌∷◌, ◌++◌, arith, Option, none, some,
  Bool-cases, ok, err, inl, inr, String, All, length, All-append, sum_of-append,
}
use inpockets.Base.Int.{ℤ, pos, negsuc, ◌+ℤ◌, ◌-ℤ◌, ◌≤ℤ◌, ◌<ℤ◌, pos_part, eqb_ℤ, eqb_ℤ_iff}
use inpockets.Base.Decimal.{of_paise, has_two_decimals-of_paise, paise-of_paise}
use inpockets.Ledger.{
  Line, conflict, is_debit, is_credit, side_total, credit_line, debit_line, bank, loan_principal,
  fee_income, gst_payable, interest_income, penal_income, unapplied_receipts,
}
use inpockets.Ledger.Lines.{IsBalanced, IsPostable}
use inpockets.Ledger.Business.{Snapshot, credit_if_positive, disbursement_lines, repayment_lines}

-- Lines of which all are credits, that credit a total.
abbrev Credits : ℕ → List Line → Type 0
Credits total lines =
    All IsPostable lines × (side_total is_debit lines ≡ 0) × (side_total is_credit lines ≡ total)

credit_if_positive-Credits :
    (code : String) (amount : ℤ) → Credits (pos_part amount) (credit_if_positive code amount)
credit_if_positive-Credits code (pos zero) = (tt, refl, refl)
credit_if_positive-Credits code (pos (suc n)) =
    ground (arith, has_two_decimals-of_paise (suc n), paise-of_paise (suc n))
credit_if_positive-Credits code (negsuc n) = ground arith

Credits-append :
    (m n : ℕ) (xs ys : List Line) → Credits m xs → Credits n ys → Credits (m + n) (xs ++ ys)
Credits-append m n xs ys x y = (
  All-append _ xs ys x.0 y.0,
  rw sum_of-append (omega (arith, x.1, y.1)),
  rw sum_of-append (omega (arith, x.2, y.2)),
)

one_credit :
    (code : String) (amount : ℤ)
    → pos 0 <ℤ amount
    → Credits (pos_part amount) (credit_line code (of_paise amount) ∷ [])
one_credit code (pos n) h = ground (arith, has_two_decimals-of_paise n, paise-of_paise n)
one_credit code (negsuc n) h = absurd (omega arith)

length-Credits : (n : ℕ) (lines : List Line) → 0 < n → Credits n lines → 1 ≤ length lines
length-Credits n [] h c = absurd (omega (arith, c.2))
length-Credits n (ln ∷ lines) h c = omega arith

-- One debit against credits of the same total.
debit-IsBalanced :
    (code : String) (total : ℤ) (lines : List Line)
    → pos 0 <ℤ total
    → Credits (pos_part total) lines
    → IsBalanced (debit_line code (of_paise total) ∷ lines)
debit-IsBalanced code (negsuc n) lines h c = absurd (omega arith)
debit-IsBalanced code (pos n) lines h c = record {
  enough = omega (arith, length-Credits n lines (omega arith) c);
  postable = (ground (arith, has_two_decimals-of_paise n), c.0);
  even = ground (arith, paise-of_paise n, c.1, c.2);
}

parts_sum :
    (n a b c d : ℤ)
    → pos 0 <ℤ n
    → pos 0 ≤ℤ a
    → pos 0 ≤ℤ b
    → pos 0 ≤ℤ c
    → pos 0 ≤ℤ d
    → a +ℤ b +ℤ c +ℤ d ≡ n
    → pos_part a + (pos_part b + (pos_part c + pos_part d)) ≡ pos_part n
unfolding ◌+ℤ◌
parts_sum n a b c d h ha hb hc hd e = ground arith

abbrev repayment_credits : ℤ → ℤ → ℤ → ℤ → List Line
repayment_credits principal interest fees unapplied =
    credit_if_positive loan_principal principal
    ++ (credit_if_positive interest_income interest
        ++ (credit_if_positive penal_income fees
            ++ credit_if_positive unapplied_receipts unapplied))

repayment_credits-Credits :
    (a b c d : ℤ)
    → Credits (pos_part a + (pos_part b + (pos_part c + pos_part d))) (repayment_credits a b c d)
repayment_credits-Credits a b c d =
    let as_credits = credit_if_positive-Credits in
    let w = credit_if_positive unapplied_receipts d in
    let z = credit_if_positive penal_income c in
    let y = credit_if_positive interest_income b in
    let x = credit_if_positive loan_principal a in
    Credits-append (pos_part a) _ x (y ++ (z ++ w)) (as_credits loan_principal a) (
      Credits-append (pos_part b) _ y (z ++ w) (as_credits interest_income b) (
        Credits-append (pos_part c) (pos_part d) z w (as_credits penal_income c)
          (as_credits unapplied_receipts d)))

-- A repayment whose parts are not negative and add up to a positive amount has balanced lines.
pub repayment_lines-IsBalanced :
    (total principal interest fees unapplied : ℤ)
    → pos 0 <ℤ total
    → pos 0 ≤ℤ principal
    → pos 0 ≤ℤ interest
    → pos 0 ≤ℤ fees
    → pos 0 ≤ℤ unapplied
    → principal +ℤ interest +ℤ fees +ℤ unapplied ≡ total
    → IsBalanced (repayment_lines total principal interest fees unapplied)
unfolding repayment_lines
repayment_lines-IsBalanced total principal interest fees unapplied h p i f u e =
    let credited = parts_sum total principal interest fees unapplied h p i f u e in
    debit-IsBalanced bank total (repayment_credits principal interest fees unapplied) h (
      subst (λ k. Credits k (repayment_credits principal interest fees unapplied)) credited
        (repayment_credits-Credits principal interest fees unapplied))

principal_parts :
    (amount principal fee gst : ℤ)
    → pos 0 <ℤ amount
    → pos 0 ≤ℤ fee
    → pos 0 ≤ℤ gst
    → amount ≡ principal -ℤ fee -ℤ gst
    → pos_part amount + (pos_part fee + pos_part gst) ≡ pos_part principal
unfolding ◌-ℤ◌
principal_parts amount principal fee gst h f g e = ground arith

principal_positive :
    (amount principal fee gst : ℤ)
    → pos 0 <ℤ amount
    → pos 0 ≤ℤ fee
    → pos 0 ≤ℤ gst
    → amount ≡ principal -ℤ fee -ℤ gst
    → pos 0 <ℤ principal
unfolding ◌-ℤ◌
principal_positive amount principal fee gst h f g e = ground arith

-- The payout of a priced loan agrees with its frozen pricing.
pub record Agrees (amount : ℤ) (s : Snapshot) : Type 0 where
  pub parts : amount ≡ s.principal -ℤ s.processing_fee -ℤ s.gst_amount
  pub payout : amount ≡ s.net_payout

abbrev priced_lines : ℤ → Snapshot → List Line
priced_lines amount s =
    debit_line loan_principal (of_paise s.principal)
    ∷ credit_line bank (of_paise amount)
    ∷ (credit_if_positive fee_income s.processing_fee
        ++ credit_if_positive gst_payable s.gst_amount)

-- The lines of a priced disbursement are made where the payout agrees with the pricing, and
-- otherwise the posting is a conflict.
pub disbursement_lines_priced :
    (amount : ℤ) (s : Snapshot)
    → (Agrees amount s → disbursement_lines amount (some s) ≡ ok (priced_lines amount s))
      × (¬ Agrees amount s → disbursement_lines amount (some s) ≡ err conflict)
unfolding disbursement_lines
disbursement_lines_priced amount s = (agree, differ)
  where
    net : ℤ
    net = s.principal -ℤ s.processing_fee -ℤ s.gst_amount

    agree : Agrees amount s → disbursement_lines amount (some s) ≡ ok (priced_lines amount s)
    agree a =
        let x = (eqb_ℤ_iff amount net).1 a.parts in
        let y = (eqb_ℤ_iff amount s.net_payout).1 a.payout in ground (arith, x, y)

    differ : ¬ Agrees amount s → disbursement_lines amount (some s) ≡ err conflict
    differ a = elim (Bool-cases (eqb_ℤ amount net)) [
      | inr x ↦ ground (arith, x)
      | inl x ↦ elim (Bool-cases (eqb_ℤ amount s.net_payout)) [
        | inr y ↦ ground (arith, x, y)
        | inl y ↦ absurd (
            a (record {
              parts = (eqb_ℤ_iff amount net).0 x;
              payout = (eqb_ℤ_iff amount s.net_payout).0 y;
            }))
      ]
    ]

priced-Credits :
    (amount : ℤ) (s : Snapshot)
    → pos 0 <ℤ amount
    → pos 0 ≤ℤ s.processing_fee
    → pos 0 ≤ℤ s.gst_amount
    → amount ≡ s.principal -ℤ s.processing_fee -ℤ s.gst_amount
    → Credits (pos_part s.principal) (
        credit_line bank (of_paise amount)
        ∷ (credit_if_positive fee_income s.processing_fee
            ++ credit_if_positive gst_payable s.gst_amount))
priced-Credits amount s h fee gst parts =
    let x = credit_line bank (of_paise amount) ∷ [] in
    let y = credit_if_positive fee_income s.processing_fee in
    let z = credit_if_positive gst_payable s.gst_amount in
    subst (λ k. Credits k (x ++ (y ++ z)))
      (principal_parts amount s.principal s.processing_fee s.gst_amount h fee gst parts)
      (Credits-append (pos_part amount) _ x (y ++ z) (one_credit bank amount h) (
        Credits-append _ _ y z (credit_if_positive-Credits fee_income s.processing_fee)
          (credit_if_positive-Credits gst_payable s.gst_amount)))

-- What a disbursement of a positive amount posts is balanced, with or without pricing, where the
-- fee and the tax are not negative: the fee and the tax are credited besides the payout.
pub disbursement_lines-IsBalanced :
    (amount : ℤ) (snapshot : Option Snapshot) (lines : List Line)
    → pos 0 <ℤ amount
    → ((s : Snapshot) → snapshot ≡ some s → (pos 0 ≤ℤ s.processing_fee) × (pos 0 ≤ℤ s.gst_amount))
    → disbursement_lines amount snapshot ≡ ok lines
    → IsBalanced lines
unfolding disbursement_lines
disbursement_lines-IsBalanced amount none lines h f e =
    let credits = credit_line bank (of_paise amount) ∷ [] in
    let same : debit_line loan_principal (of_paise amount) ∷ credits ≡ lines = ground arith in
    rw (← same) (debit-IsBalanced loan_principal amount credits h (one_credit bank amount h))
disbursement_lines-IsBalanced amount (some s) lines h f e =
    elim (Bool-cases (eqb_ℤ amount (s.principal -ℤ s.processing_fee -ℤ s.gst_amount))) [
      | inr x ↦ absurd (ground (arith, x))
      | inl x ↦
          (let parts = (eqb_ℤ_iff amount _).0 x in
            let same : priced_lines amount s ≡ lines = ground (arith, e) in
            let (fee, gst) = f s refl in
            rw (← same) (
              debit-IsBalanced loan_principal s.principal _
                (principal_positive amount s.principal s.processing_fee s.gst_amount h fee gst
                  parts)
                (priced-Credits amount s h fee gst parts)))
    ]
