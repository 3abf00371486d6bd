-- ===== src/Ledger/TrialBalance.antt =====
-- The trial balance of sound books (`admin_trial_balance` of app/services/ledger.py).
use inpockets.Base.{
  ℕ, ◌≡◌, refl, sym, ◌∙◌, Bool, true, false, ◌&&◌, List, [], ◌∷◌, arith, Option, none, some, sum_of,
  sum_of-add, sum_of-zero, ◌*◌, sum_of-keep, sum_of-map, find-none, All, keep, if◌then◌else◌, ◌==◌,
}
use inpockets.Ledger.{Direction, is_debit, is_credit}
use inpockets.Ledger.Tables.{Account, Entry, Books}
use inpockets.Ledger.Balances.{
  in_scope, entry_total, account_total, account_balance, has_row, balances, trial_balance,
}
use inpockets.Ledger.Trial.{IsSound, IsPlaced, occurrences}

-- One entry, summed over a chart of accounts that holds its account once, counts once.
entry-once :
    (counts : Bool) (n id : ℕ) (accounts : List Account)
    → sum_of (λ a. if counts && (id == a.id) then n else 0) accounts
      ≡ (if counts then occurrences id accounts * n else 0)
entry-once false n id accounts = sum_of-zero accounts
entry-once true n id [] = omega arith
entry-once true n id (a ∷ accounts) = grind (arith, entry-once true n id accounts)

&&-assoc : (a b c : Bool) → (a && (b && c)) ≡ ((a && b) && c)
&&-assoc a b c = ground arith

module _ (side : Direction → Bool) (p : ℕ → Bool) where
  accounts-total :
      (accounts : List Account) (es : List Entry)
      → IsPlaced accounts es
      → sum_of (λ a. account_total side p a.id es) accounts ≡ entry_total side p es
  accounts-total accounts [] h = sum_of-zero accounts
  accounts-total accounts (e ∷ es) h =
      let rest = accounts-total accounts es h.1 in
      let counts = p e.transaction_id && side e.direction in
      let one = entry-once counts e.amount e.account_id accounts in
      sum_of-add _ _ accounts ∙ simp (rest, &&-assoc, one, h.0) (ground arith)

  account_total-zero :
      (a : Account) (es : List Entry)
      → All (λ e. ((e.account_id == a.id) && p e.transaction_id) ≡ false) es
      → account_total side p a.id es ≡ 0
  account_total-zero a [] h = refl
  account_total-zero a (e ∷ es) h = ground (arith, account_total-zero a es h.1)

-- An account with no row has no entry in scope.
no_row :
    (side : Direction → Bool) (offer : Option ℕ) (b : Books) (a : Account)
    → has_row offer b a ≡ false
    → account_total side (in_scope offer b) a.id b.entries ≡ 0
unfolding has_row
no_row side none b a h = cc
no_row side (some offer) b a h =
    account_total-zero side (in_scope (some offer) b) a b.entries
      (find-none _ b.entries (ground arith))

-- The two totals of the trial balance of sound books are equal, over all loans and for one of them.
pub trial_balance-even :
    (offer : Option ℕ) (b : Books)
    → IsSound b
    → let (rows, debits, credits) = trial_balance offer b in debits ≡ credits
unfolding trial_balance balances account_balance
trial_balance-even offer b v =
    (sum_of-map (account_balance offer b) _ _ ∙ rows_sum is_debit)
    ∙ v.is_even (in_scope offer b)
    ∙ sym (sum_of-map (account_balance offer b) _ _ ∙ rows_sum is_credit)
  where
    rows_sum :
        (side : Direction → Bool)
        → sum_of
            (λ a. account_total side (in_scope offer b) a.id b.entries)
            (keep (has_row offer b) b.accounts)
          ≡ entry_total side (in_scope offer b) b.entries
    rows_sum side =
        sum_of-keep (has_row offer b) _ b.accounts (no_row side offer b)
        ∙ accounts-total side (in_scope offer b) b.accounts b.entries v.placed
