-- ===== src/Ledger/Tables.antt =====
-- The tables of the ledger and the queries on them (app/models/ledger.py and
-- app/repositories/ledger.py). Rows are kept in the order of insertion; an id is a number, and
-- `uuid.uuid4()` is the next number that no row has.
use text.Mathlib.Text.{◌==◌ as str_eq}
use inpockets.Base.{
  ℕ, suc, ◌==◌, String, Bool, true, false, not, List, [], ◌∷◌, ◌++◌, Option, none, some,
  if◌then◌else◌, Result, ok, err, keep, find,
}
use inpockets.Base.Int.{pos}
use inpockets.Base.Decimal.{of_paise}
use inpockets.Ledger.{
  AccountType, Direction, TxKind, disbursement, repayment, adjustment, disbursement_reversal,
  repayment_reversal, adjustment_reversal, Line, LedgerError, integrity_error,
}

pub record Account : Type 0 where
  pub id : ℕ
  pub code : String
  pub account_type : AccountType
  pub normal_side : Direction
  pub is_active : Bool

-- The texts by which the service makes a posting idempotent, such as `disbursement:{id}:paid`.
-- They differ in the words or in the id. `other` is any text of another form.
pub data IdempotencyKey : Type 0 where
  disbursement_paid disbursement_reversed repayment_received repayment_reversed : ℕ → IdempotencyKey
  other : String → IdempotencyKey

abbrev pub key_eq : IdempotencyKey → IdempotencyKey → Bool
key_eq (disbursement_paid i) (disbursement_paid j) = i == j
key_eq (disbursement_reversed i) (disbursement_reversed j) = i == j
key_eq (repayment_received i) (repayment_received j) = i == j
key_eq (repayment_reversed i) (repayment_reversed j) = i == j
key_eq (other s) (other t) = str_eq s t
key_eq _ _ = false

pub record Transaction : Type 0 where
  pub id : ℕ
  pub kind : TxKind
  pub idempotency_key : IdempotencyKey
  pub payload_hash : ℕ
  pub source_type : String
  pub source_id : ℕ
  pub loan_offer_id : ℕ
  pub user_id : ℕ
  pub entry_count : ℕ
  pub total_amount : ℕ
  pub reverses_transaction_id : Option ℕ
  pub reason : Option String

pub record Entry : Type 0 where
  pub transaction_id : ℕ
  pub line_no : ℕ
  pub account_id : ℕ
  pub direction : Direction
  pub amount : ℕ

pub record Books : Type 0 where
  pub accounts : List Account
  pub transactions : List Transaction
  pub entries : List Entry
  pub next_id : ℕ

-- `accounts_by_code(codes).get(code)`
abbrev pub account_by_code : String → Books → Option Account
account_by_code code b = find (λ a. str_eq a.code code) b.accounts

unfoldable pub get_by_key : IdempotencyKey → Books → Option Transaction
get_by_key key b = find (λ t. key_eq t.idempotency_key key) b.transactions

unfoldable pub get_by_id : ℕ → Books → Option Transaction
get_by_id id b = find (λ t. t.id == id) b.transactions

abbrev pub reverses : ℕ → Transaction → Bool
reverses id t = elim t.reverses_transaction_id [ none ↦ false | some r ↦ r == id ]

unfoldable pub get_reversal_of : ℕ → Books → Option Transaction
get_reversal_of id b = find (reverses id) b.transactions

-- `uq_ledger_tx_one_reversal`: no other transaction reverses the same one.
abbrev reversal_taken : Option ℕ → Books → Bool
reversal_taken none b = false
reversal_taken (some id) b = elim (find (reverses id) b.transactions) [
  | none ↦ false
  | some _ ↦ true
]

-- `ck_ledger_tx_reversal_link`: a reversal, and nothing else, has a link.
abbrev pub has_right_link : TxKind → Option ℕ → Bool
has_right_link disbursement none = true
has_right_link repayment none = true
has_right_link adjustment none = true
has_right_link disbursement_reversal (some _) = true
has_right_link repayment_reversal (some _) = true
has_right_link adjustment_reversal (some _) = true
has_right_link _ _ = false

-- `None` where the key exists already. A second reversal of one transaction violates a constraint, and
-- so does a header whose kind and link do not go together.
unfoldable pub insert_header : (ℕ → Transaction) → Books → Result LedgerError (Option ℕ × Books)
unfolding get_by_key
insert_header row b =
    let t = row b.next_id in
    if not (has_right_link t.kind t.reverses_transaction_id)
    then err integrity_error
    else elim (get_by_key t.idempotency_key b) [
      | some _ ↦ ok (none, b)
      | none ↦
          if reversal_taken t.reverses_transaction_id b
          then err integrity_error
          else ok (
            some b.next_id,
            record b { transactions = b.transactions ++ (t ∷ []); next_id = suc b.next_id },
          )
    ]

unfoldable pub insert_entries : List Entry → Books → Books
insert_entries rows b = record b { entries = b.entries ++ rows }

-- The code of an account; the join drops an entry whose account is missing.
abbrev pub entry_lines : List Account → List Entry → List Line
entry_lines accounts [] = []
entry_lines accounts (e ∷ es) =
    let rest = entry_lines accounts es in
    elim (find (λ a. a.id == e.account_id) accounts) [
      | none ↦ rest
      | some a ↦
          record {
            account_code = a.code;
            direction = e.direction;
            amount = of_paise (pos e.amount);
          }
          ∷ rest
    ]

-- The entries of a transaction with their accounts' codes, as the lines that `reverse` builds of
-- them. The rows of one transaction are inserted in the order of their line numbers.
unfoldable pub entries_with_accounts : ℕ → Books → List Line
entries_with_accounts id b = entry_lines b.accounts (keep (λ e. e.transaction_id == id) b.entries)
