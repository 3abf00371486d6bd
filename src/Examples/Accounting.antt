-- ===== src/Examples/Accounting.antt =====
-- Runs of the ledger (app/services/ledger.py): a chart of accounts, the payout of a loan and its
-- reversal.
use inpockets.Base.{
  ℕ, true, List, [], ◌∷◌, Option, none, some, Result, ok, err, length, ◌≡◌, ◌≢◌, ◌↔◌, refl, subst,
  arith,
}
use inpockets.Base.Int.{pos, ◌≤ℤ◌, ◌-ℤ◌}
use inpockets.Base.Decimal.{of_paise, has_two_decimals, paise, paise_of}
use inpockets.Base.Rounding.{half_even}
use inpockets.Ledger.{
  debit, credit, Line, LedgerError, conflict, debit_line, credit_line, asset, bank, loan_principal,
  fee_income, income, disbursement, validate_lines, check_lines, check_line, Payload, payload,
  total_of,
}
use inpockets.Ledger.Lines.{IsBalanced, validate_lines_iff}
use inpockets.Ledger.Tables.{
  Account, Books, Transaction, disbursement_paid, disbursement_reversed, get_by_key, get_by_id,
  insert_header, insert_entries,
}
use inpockets.Ledger.Posting.{
  Posting, post, post_new, reverse, check_accounts, entry_rows, same_or_conflict, header,
  finish_post,
}
use inpockets.Ledger.Business.{Snapshot, disbursement_lines, credit_if_positive}
use inpockets.Ledger.Balances.{trial_balance}
use inpockets.Ledger.Trial.{IsSound, IsFair, post-IsSound}
use inpockets.Ledger.TrialBalance.{trial_balance-even}
use inpockets.Ledger.Replay.{post-replay}
use inpockets.Ledger.Postings.{disbursement_lines-IsBalanced}

abbrev pub chart : List Account
chart =
    record {
      id = 1;
      code = "BANK_CLEARING";
      account_type = asset;
      normal_side = debit;
      is_active = true;
    }
    ∷ record {
      id = 2;
      code = "LOAN_PRINCIPAL_RECEIVABLE";
      account_type = asset;
      normal_side = debit;
      is_active = true;
    }
    ∷ record {
      id = 3;
      code = "FEE_INCOME";
      account_type = income;
      normal_side = credit;
      is_active = true;
    }
    ∷ []

abbrev pub new_books : Books
new_books = record { accounts = chart; transactions = []; entries = []; next_id = 1 }

-- A fingerprint that tells postings of different numbers of lines apart.
abbrev pub fingerprint : Payload → ℕ
fingerprint p = length p.lines

-- No other session commits.
abbrev pub nobody : Books → Books
nobody b = b

-- The payout of a loan of 1000.00 for which 980.00 are paid out.
abbrev payout_lines : List Line
payout_lines =
    debit_line loan_principal (of_paise (pos 100000))
    ∷ credit_line bank (of_paise (pos 98000))
    ∷ credit_line fee_income (of_paise (pos 2000))
    ∷ []

abbrev payout : Posting
payout = record {
  kind = disbursement;
  idempotency_key = disbursement_paid 7;
  source_type = "disbursement";
  source_id = 7;
  loan_offer_id = 5;
  user_id = 3;
  lines = payout_lines;
  reverses_transaction_id = none;
  reason = none;
}

abbrev or_else : {A : Type 0} → Result LedgerError A → A → A
or_else (ok a) b = a
or_else (err e) b = b

after_payout : Option Transaction × Books
after_payout = or_else (post fingerprint nobody payout new_books) (none, new_books)

payout_posted : post fingerprint nobody payout new_books ≡ ok after_payout
unfolding after_payout post post_new validate_lines check_lines check_line has_two_decimals paise
    paise_of half_even check_accounts insert_header finish_post same_or_conflict get_by_key
    get_by_id insert_entries entry_rows header payload total_of
payout_posted = refl

payout_lines-IsBalanced : IsBalanced payout_lines
unfolding has_two_decimals paise paise_of half_even
payout_lines-IsBalanced = record {
  enough = omega arith;
  postable = ((refl, refl), ((refl, refl), ((refl, refl), tt)));
  even = refl;
}

new_books-IsSound : IsSound new_books
new_books-IsSound = record {
  is_even = (λ p. refl);
  unique = (refl, (refl, (refl, tt)));
  placed = tt;
}

nobody-IsFair : IsFair nobody
nobody-IsFair = λ b v. (v, refl)

after_payout-IsSound : IsSound after_payout.1
after_payout-IsSound =
    post-IsSound fingerprint nobody nobody-IsFair payout new_books after_payout.0 after_payout.1
      new_books-IsSound payout_posted

post-IsSound_example : IsSound after_payout.1
post-IsSound_example =
    post-IsSound fingerprint nobody nobody-IsFair payout new_books after_payout.0 after_payout.1
      new_books-IsSound payout_posted

trial_balance-even_example :
    let (rows, debits, credits) = trial_balance (some 5) after_payout.1 in debits ≡ credits
trial_balance-even_example = trial_balance-even (some 5) after_payout.1 after_payout-IsSound

post-replay_example :
    (post fingerprint nobody payout after_payout.1 ≡ ok after_payout)
    × ((q : Posting)
        → q.idempotency_key ≡ disbursement_paid 7
        → IsBalanced q.lines
        → fingerprint (payload q.kind q.loan_offer_id q.lines)
          ≢ fingerprint (payload disbursement 5 payout_lines)
        → post fingerprint nobody q after_payout.1 ≡ err conflict)
post-replay_example =
    post-replay fingerprint nobody nobody payout new_books after_payout.0 after_payout.1 tt
      payout_posted

after_reversal : Option Transaction × Books
after_reversal =
    or_else
      (reverse fingerprint nobody 1 (disbursement_reversed 7) "disbursement" 7 "returned"
        after_payout.1)
      (none, new_books)

validate_lines_iff_example :
    (validate_lines payout_lines ≡ ok payout_lines)
    ↔ ((payout_lines ≡ payout_lines) × IsBalanced payout_lines)
validate_lines_iff_example = validate_lines_iff payout_lines payout_lines

-- The pricing that was frozen for the loan.
abbrev pub pricing : Snapshot
pricing = record {
  principal = pos 100000;
  processing_fee = pos 2000;
  gst_amount = pos 0;
  net_payout = pos 98000;
}

charges_nonneg :
    (s : Snapshot) → some pricing ≡ some s → (pos 0 ≤ℤ s.processing_fee) × (pos 0 ≤ℤ s.gst_amount)
charges_nonneg s e = subst (λ (o : Option Snapshot). Nonneg o) e (omega arith, omega arith)
  where
    Nonneg : Option Snapshot → Type 0
    Nonneg none = Unit
    Nonneg (some t) = (pos 0 ≤ℤ t.processing_fee) × (pos 0 ≤ℤ t.gst_amount)

payout_lines_made : disbursement_lines (pos 98000) (some pricing) ≡ ok payout_lines
unfolding disbursement_lines credit_if_positive ◌-ℤ◌
payout_lines_made = refl

disbursement_lines-IsBalanced_example : IsBalanced payout_lines
disbursement_lines-IsBalanced_example =
    disbursement_lines-IsBalanced (pos 98000) (some pricing) payout_lines (omega arith)
      charges_nonneg payout_lines_made
