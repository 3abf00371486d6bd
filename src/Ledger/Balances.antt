-- ===== src/Ledger/Balances.antt =====
-- Balances are derived from the entries on every read (`totals_by_account` of
-- app/repositories/ledger.py; `balances`, `principal_outstanding` and `admin_trial_balance` of
-- app/services/ledger.py). The order of the rows by code is left out.
use text.Mathlib.Text.{◌==◌ as str_eq}
use inpockets.Base.{
  ℕ, ◌==◌, String, Bool, true, false, ◌&&◌, List, Option, none, some, if◌then◌else◌, keep, sum_of,
  find, map,
}
use inpockets.Base.Int.{ℤ, pos}
use inpockets.Ledger.{AccountType, Direction, is_debit, is_credit, signed_balance, loan_principal}
use inpockets.Ledger.Tables.{Account, Entry, Books, get_by_id}

-- The entries that a query counts: all of them, or those of the transactions of one offer.
abbrev pub in_scope : Option ℕ → Books → ℕ → Bool
in_scope none b tx_id = true
in_scope (some offer) b tx_id = elim (get_by_id tx_id b) [
  | none ↦ false
  | some t ↦ t.loan_offer_id == offer
]

-- The amounts on one side of those entries whose transaction passes a test.
abbrev pub entry_total : (Direction → Bool) → (ℕ → Bool) → List Entry → ℕ
entry_total side p = sum_of (λ e. if p e.transaction_id && side e.direction then e.amount else 0)

-- The same for one account.
abbrev pub account_total : (Direction → Bool) → (ℕ → Bool) → ℕ → List Entry → ℕ
account_total side p account = sum_of (λ e.
    if p e.transaction_id && (side e.direction && (e.account_id == account)) then e.amount else 0)

pub record AccountBalance : Type 0 where
  pub code : String
  pub account_type : AccountType
  pub normal_side : Direction
  pub debit_total : ℕ
  pub credit_total : ℕ
  pub balance : ℤ

unfoldable pub account_balance : Option ℕ → Books → Account → AccountBalance
account_balance offer b a =
    let d = account_total is_debit (in_scope offer b) a.id b.entries in
    let c = account_total is_credit (in_scope offer b) a.id b.entries in
    record {
      code = a.code;
      account_type = a.account_type;
      normal_side = a.normal_side;
      debit_total = d;
      credit_total = c;
      balance = signed_balance a.account_type d c;
    }

-- For one offer the inner join leaves out the accounts with no entry of that offer.
unfoldable pub has_row : Option ℕ → Books → Account → Bool
has_row none b a = true
has_row (some offer) b a =
    elim (find (λ e. (e.account_id == a.id) && in_scope (some offer) b e.transaction_id)
      b.entries) [ none ↦ false | some _ ↦ true ]

unfoldable pub balances : Option ℕ → Books → List AccountBalance
balances offer b = map (account_balance offer b) (keep (has_row offer b) b.accounts)

unfoldable pub principal_outstanding : ℕ → Books → ℤ
principal_outstanding offer b =
    elim (find (λ r. str_eq r.code loan_principal) (balances (some offer) b)) [
      | none ↦ pos 0
      | some r ↦ r.balance
    ]

-- The rows with the two sums, as `admin_trial_balance` returns them to an admin who may read.
unfoldable pub trial_balance : Option ℕ → Books → List AccountBalance × ℕ × ℕ
trial_balance offer b =
    let rows = balances offer b in
    (rows, sum_of (λ r. r.debit_total) rows, sum_of (λ r. r.credit_total) rows)
