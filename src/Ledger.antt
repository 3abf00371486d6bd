-- ===== src/Ledger.antt =====
-- Double-entry rules (app/domain/ledger.py): accounts, lines, the check of a transaction's lines,
-- the fingerprint of a posting, mirrors and signed balances. The children hold the tables, the
-- service and the proofs.
pub mod Lines
pub mod Tables
pub mod Posting
pub mod Business
pub mod Balances
pub mod Inversion
pub mod Trial
pub mod TrialBalance
pub mod Replay
pub mod Postings
pub mod Keys
pub mod Reversing
pub mod Succeeding
use Prim.Native.Char.{code}
use inpockets.Base.{
  ℕ, ◌+◌, ltb, ◌==◌, String, Bool, true, false, not, List, [], ◌∷◌, ◌++◌, Option, none, some, map,
  if◌then◌else◌, Result, ok, err, raise_if, ◌>>=◌, ◌>>◌, length, keep, sum_of,
}
use inpockets.Base.Int.{ℤ, pos, ◌-ℤ◌}
use inpockets.Base.Decimal.{Decimal, is_positive, has_two_decimals, paise, decimal_text}

pub data AccountType : Type 0 where
  asset liability equity income expense : AccountType

pub data Direction : Type 0 where
  debit credit : Direction

-- `DEBIT_NORMAL` and `normal_side`.
unfoldable pub normal_side : AccountType → Direction
normal_side asset = debit
normal_side expense = debit
normal_side liability = credit
normal_side equity = credit
normal_side income = credit

pub data TxKind : Type 0 where
  disbursement disbursement_reversal repayment repayment_reversal : TxKind
  adjustment adjustment_reversal : TxKind

-- The table `REVERSAL_OF`; a kind outside its keys has none.
unfoldable pub reversal_of : TxKind → Option TxKind
reversal_of disbursement = some disbursement_reversal
reversal_of repayment = some repayment_reversal
reversal_of adjustment = some adjustment_reversal
reversal_of disbursement_reversal = none
reversal_of repayment_reversal = none
reversal_of adjustment_reversal = none

abbrev pub bank : String
bank = "BANK_CLEARING"

abbrev pub loan_principal : String
loan_principal = "LOAN_PRINCIPAL_RECEIVABLE"

abbrev pub unapplied_receipts : String
unapplied_receipts = "UNAPPLIED_RECEIPTS"

abbrev pub interest_income : String
interest_income = "INTEREST_INCOME"

abbrev pub fee_income : String
fee_income = "FEE_INCOME"

abbrev pub gst_payable : String
gst_payable = "GST_PAYABLE"

abbrev pub penal_income : String
penal_income = "PENAL_INCOME"

pub record Line : Type 0 where
  pub account_code : String
  pub direction : Direction
  pub amount : Decimal

-- `debit(account_code, amount)` and `credit(account_code, amount)`.
abbrev pub debit_line : String → Decimal → Line
debit_line account amount = record { account_code = account; direction = debit; amount = amount }

abbrev pub credit_line : String → Decimal → Line
credit_line account amount = record { account_code = account; direction = credit; amount = amount }

-- The exceptions: the three of the module, a violated constraint of the tables, and an attribute
-- read off `None`.
pub data LedgerError : Type 0 where
  unbalanced not_found conflict integrity_error attribute_error : LedgerError

abbrev pub is_debit : Direction → Bool
is_debit debit = true
is_debit credit = false

abbrev pub is_credit : Direction → Bool
is_credit debit = false
is_credit credit = true

-- The total of one side in paise. Every amount has passed the test of two decimals where this is
-- read, so the sum of the decimals is the sum of their paise.
abbrev pub side_total : (Direction → Bool) → List Line → ℕ
side_total side = sum_of (λ ln. if side ln.direction then paise ln.amount else 0)

-- One round of the loop of `validate_lines`; an accepted line is kept as it is.
unfoldable pub check_line : Line → Result LedgerError (Unit {0})
check_line ln = do
  raise_if (not (is_positive ln.amount)) unbalanced
  raise_if (not (has_two_decimals ln.amount)) unbalanced

unfoldable pub check_lines : List Line → Result LedgerError (List Line)
check_lines [] = ok []
check_lines (ln ∷ rest) = do check_line ln; clean ← check_lines rest; ok (ln ∷ clean)

unfoldable pub validate_lines : List Line → Result LedgerError (List Line)
validate_lines lines = do
  raise_if (ltb (length lines) 2) unbalanced
  clean ← check_lines lines
  raise_if (not (side_total is_debit clean == side_total is_credit clean)) unbalanced
  ok clean

unfoldable pub total_of : List Line → ℕ
total_of = side_total is_debit

abbrev pub flip : Direction → Direction
flip debit = credit
flip credit = debit

mirror_line : Line → Line
mirror_line ln = record ln { direction = flip ln.direction }

unfoldable pub mirror : List Line → List Line
unfolding mirror_line
mirror = map mirror_line

unfoldable pub signed_balance : AccountType → ℕ → ℕ → ℤ
unfolding normal_side
signed_balance account_type debit_total credit_total =
    if is_debit (normal_side account_type)
    then pos debit_total -ℤ pos credit_total
    else pos credit_total -ℤ pos debit_total

-- The fingerprint of a posting.

abbrev pub codes : String → List ℕ
codes String.[] = []
codes (String.◌∷◌ c s) = code c ∷ codes s

abbrev direction_text : Direction → List ℕ
direction_text debit = codes "DEBIT"
direction_text credit = codes "CREDIT"

-- `f"{ln.account_code}:{ln.direction.value}:{ln.amount}"`
line_text : Line → List ℕ
line_text ln =
    codes ln.account_code
    ++ (b':' ∷ (direction_text ln.direction ++ (b':' ∷ decimal_text ln.amount)))

-- Order of texts by code points.
abbrev pub text_le : List ℕ → List ℕ → Bool
text_le [] ys = true
text_le (x ∷ xs) [] = false
text_le (x ∷ xs) (y ∷ ys) =
    let rest = text_le xs ys in if ltb x y then true else if x == y then rest else false

insert_text : List ℕ → List (List ℕ) → List (List ℕ)
insert_text t [] = t ∷ []
insert_text t (u ∷ us) = let rest = insert_text t us in if text_le t u then t ∷ u ∷ us else u ∷ rest

-- `sorted(...)`
sort_texts : List (List ℕ) → List (List ℕ)
unfolding insert_text
sort_texts [] = []
sort_texts (t ∷ ts) = insert_text t (sort_texts ts)

-- The parts that `payload_hash` joins by `|`. No part but the first two holds a `|`.
pub record Payload : Type 0 where
  pub kind : TxKind
  pub loan_offer_id : ℕ
  pub lines : List (List ℕ)

unfoldable pub payload : TxKind → ℕ → List Line → Payload
unfolding line_text sort_texts
payload kind offer lines = record {
  kind = kind;
  loan_offer_id = offer;
  lines = sort_texts (map line_text lines);
}
