-- ===== src/Ledger/Business.antt =====
-- The postings of the business (`post_disbursement`, `reverse_disbursement`, `post_repayment` and
-- `reverse_repayment` of app/services/ledger.py). The amounts come from columns of two decimals, so
-- they are integers of paise and `quantize` leaves them as they are. The description of a
-- transaction is left out.
use inpockets.Base.{
  ℕ, String, List, [], ◌∷◌, ◌++◌, Option, none, some, if◌then◌else◌, Result, ok, raise_if, ◌>>=◌,
  ◌>>◌, not, ◌||◌,
}
use inpockets.Base.Int.{ℤ, pos, ltb_ℤ, eqb_ℤ, ◌-ℤ◌}
use inpockets.Base.Decimal.{of_paise}
use inpockets.Ledger.{
  Line, LedgerError, conflict, debit_line, credit_line, bank, loan_principal, fee_income,
  gst_payable, interest_income, penal_income, unapplied_receipts, disbursement, repayment, Payload,
}
use inpockets.Ledger.Tables.{
  disbursement_paid, disbursement_reversed, repayment_received, repayment_reversed, Transaction,
  Books, get_by_key,
}
use inpockets.Ledger.Posting.{post, reverse}

-- What the ledger reads of a disbursement and of a payment.
pub record Source : Type 0 where
  pub id : ℕ
  pub loan_offer_id : ℕ
  pub user_id : ℕ
  pub amount : ℤ

-- What it reads of an offer's frozen pricing.
pub record Snapshot : Type 0 where
  pub principal : ℤ
  pub processing_fee : ℤ
  pub gst_amount : ℤ
  pub net_payout : ℤ

-- `if amount > 0: lines.append(credit(code, amount))`
abbrev pub credit_if_positive : String → ℤ → List Line
credit_if_positive code amount =
    if ltb_ℤ (pos 0) amount then credit_line code (of_paise amount) ∷ [] else []

unfoldable pub disbursement_lines : ℤ → Option Snapshot → Result LedgerError (List Line)
disbursement_lines amount none =
    ok (debit_line loan_principal (of_paise amount) ∷ credit_line bank (of_paise amount) ∷ [])
disbursement_lines amount (some s) = do
  raise_if
      (not (eqb_ℤ amount (s.principal -ℤ s.processing_fee -ℤ s.gst_amount))
        || not (eqb_ℤ amount s.net_payout))
      conflict
  ok (
      debit_line loan_principal (of_paise s.principal)
      ∷ credit_line bank (of_paise amount)
      ∷ (credit_if_positive fee_income s.processing_fee
          ++ credit_if_positive gst_payable s.gst_amount))

unfoldable pub repayment_lines : ℤ → ℤ → ℤ → ℤ → ℤ → List Line
repayment_lines total principal interest fees unapplied =
    debit_line bank (of_paise total)
    ∷ (credit_if_positive loan_principal principal
        ++ (credit_if_positive interest_income interest
            ++ (credit_if_positive penal_income fees
                ++ credit_if_positive unapplied_receipts unapplied)))

module _ (sha256 : Payload → ℕ) (others : Books → Books) where
  unfoldable pub post_disbursement :
      Source → Option Snapshot → Books → Result LedgerError (Option Transaction × Books)
  post_disbursement d snapshot b = disbursement_lines d.amount snapshot >>= λ lines.
      post sha256 others
        (record {
          kind = disbursement;
          idempotency_key = disbursement_paid d.id;
          source_type = "disbursement";
          source_id = d.id;
          loan_offer_id = d.loan_offer_id;
          user_id = d.user_id;
          lines = lines;
          reverses_transaction_id = none;
          reason = none;
        })
        b

  unfoldable pub reverse_disbursement :
      Source → Books → Result LedgerError (Option Transaction × Books)
  reverse_disbursement d b = elim (get_by_key (disbursement_paid d.id) b) [
    | none ↦ ok (none, b)
    | some original ↦
        reverse sha256 others original.id (disbursement_reversed d.id) "disbursement" d.id
          "Provider reported the disbursement reversed" b
  ]

  unfoldable pub post_repayment :
      Source → ℤ → ℤ → ℤ → ℤ → Books → Result LedgerError (Option Transaction × Books)
  post_repayment payment principal interest fees unapplied b =
      post sha256 others
        (record {
          kind = repayment;
          idempotency_key = repayment_received payment.id;
          source_type = "repayment_payment";
          source_id = payment.id;
          loan_offer_id = payment.loan_offer_id;
          user_id = payment.user_id;
          lines = repayment_lines payment.amount principal interest fees unapplied;
          reverses_transaction_id = none;
          reason = none;
        })
        b

  unfoldable pub reverse_repayment :
      Source → Books → Result LedgerError (Option Transaction × Books)
  reverse_repayment payment b = elim (get_by_key (repayment_received payment.id) b) [
    | none ↦ ok (none, b)
    | some original ↦
        reverse sha256 others original.id (repayment_reversed payment.id) "repayment_payment"
          payment.id "Provider reported the payment reversed" b
  ]
