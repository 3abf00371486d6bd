-- ===== src/Examples/Servicing.antt =====
-- Runs of the servicing of a loan (app/domain/repayment.py and app/services/repayment.py): a
-- payment of 500.00 on a loan of two installments.
use inpockets.Base.{
  ℕ, true, false, List, [], ◌∷◌, ◌++◌, none, some, Result, ok, err, length, All, ◌≡◌, ◌⊎◌, refl,
  arith,
}
use inpockets.Base.Int.{pos, ◌+ℤ◌, ◌-ℤ◌, min_ℤ, sum_ℤ}
use inpockets.Base.Decimal.{has_two_decimals, paise, paise_of}
use inpockets.Base.Rounding.{half_even}
use inpockets.Ledger.{
  debit, credit, Payload, asset, income, total_of, payload, validate_lines, check_lines, check_line,
  reversal_of, mirror,
}
use inpockets.Ledger.Tables.{
  Books, get_by_key, get_by_id, get_reversal_of, insert_header, insert_entries,
  entries_with_accounts,
}
use inpockets.Ledger.Posting.{
  post, post_new, reverse, reversal_posting, check_accounts, entry_rows, same_or_conflict, header,
  finish_post,
}
use inpockets.Ledger.Business.{
  post_repayment, reverse_repayment, repayment_lines, credit_if_positive,
}
use inpockets.Ledger.Lines.{IsBalanced}
use inpockets.Repayment.{
  pending, InstallmentState, scheduled, stored_status, can_transition, is_open,
}
use inpockets.Repayment.Allocation.{
  total, allocate, allocate_sorted, take_share, add_share, sort_by_number, insert_by_number,
}
use inpockets.Repayment.Waterfall.{
  IsOwing, IsWithin, AllOwing, IsWaterfall, outstanding_total, take_share-IsWithin,
}
use inpockets.Repayment.Order.{oldest_first, allocate-IsWaterfall}
use inpockets.Repayment.Payments.{
  Payment, Desk, RepaymentError, says_success, applied_payment, move, moved, settle,
  post_settlement, settled_desk, reversed_desk, reverse_payment, post_reversal, credit_rows,
  debit_rows, credit_row, debit_row,
}
use inpockets.Repayment.Payments.Applying.{Report, apply}
use inpockets.Repayment.Lifecycle.{Follows, the_desk}
use inpockets.Repayment.Following.{apply-Follows}
use inpockets.Repayment.Settling.{IsConsistent}
use inpockets.Repayment.Settlement.{settle_then_reverse}
use inpockets.Repayment.Balancing.{settlement-IsBalanced}

abbrev first_installment : InstallmentState
first_installment = record {
  id = 11;
  number = 1;
  due_date = 30;
  principal_due = pos 40000;
  interest_due = pos 1000;
  fee_due = pos 500;
  principal_paid = pos 0;
  interest_paid = pos 0;
  fee_paid = pos 0;
}

abbrev second_installment : InstallmentState
second_installment = record {
  id = 12;
  number = 2;
  due_date = 60;
  principal_due = pos 40000;
  interest_due = pos 500;
  fee_due = pos 0;
  principal_paid = pos 0;
  interest_paid = pos 0;
  fee_paid = pos 0;
}

abbrev both : List InstallmentState
both = first_installment ∷ second_installment ∷ []

abbrev payment : Payment
payment = record {
  id = 21;
  user_id = 3;
  loan_offer_id = 5;
  amount = pos 50000;
  status = pending;
  provider_ref = some "ref-1";
  failure_code = none;
  review_reason = none;
  checkout_url = none;
  principal_applied = pos 0;
  interest_applied = pos 0;
  fee_applied = pos 0;
  unapplied_amount = pos 0;
  dispatch_attempts = 1;
  requested_at = 0;
}

abbrev books : Books
books = record {
  accounts =
      record {
        id = 1;
        code = "BANK_CLEARING";
        account_type = asset;
        normal_side = debit;
        is_active = true;
      }
      ∷ record {
        id = 2;
        code = "LOAN_PRINCIPAL_RECEIVABLE";
        account_type = asset;
        normal_side = debit;
        is_active = true;
      }
      ∷ record {
        id = 3;
        code = "INTEREST_INCOME";
        account_type = income;
        normal_side = credit;
        is_active = true;
      }
      ∷ record {
        id = 4;
        code = "PENAL_INCOME";
        account_type = income;
        normal_side = credit;
        is_active = true;
      }
      ∷ [];
  transactions = [];
  entries = [];
  next_id = 1;
}

abbrev desk : Desk
desk = record {
  payment = payment;
  rows =
      record { state = first_installment; status = scheduled }
      ∷ record { state = second_installment; status = scheduled }
      ∷ [];
  allocations = [];
  books = books;
  audit = [];
  refs_of_others = "ref-8" ∷ [];
}

abbrev fingerprint : Payload → ℕ
fingerprint p = length p.lines

abbrev nobody : Books → Books
nobody b = b

abbrev paid_report : Report
paid_report = record {
  status = says_success;
  provider_ref = some "ref-1";
  amount = some (pos 50000);
  failure_code = none;
  checkout_url = none;
}

apply-Follows_example : Follows the_desk pending (apply fingerprint nobody paid_report false desk)
apply-Follows_example = apply-Follows fingerprint nobody paid_report false desk

first_installment-IsOwing : IsOwing first_installment
first_installment-IsOwing = record {
  principal_from = omega arith;
  principal_to = omega arith;
  interest_from = omega arith;
  interest_to = omega arith;
  fee_from = omega arith;
  fee_to = omega arith;
}

second_installment-IsOwing : IsOwing second_installment
second_installment-IsOwing = record {
  principal_from = omega arith;
  principal_to = omega arith;
  interest_from = omega arith;
  interest_to = omega arith;
  fee_from = omega arith;
  fee_to = omega arith;
}

both-AllOwing : AllOwing both
both-AllOwing = (first_installment-IsOwing, (second_installment-IsOwing, tt))

allocate-IsWaterfall_example :
    IsWaterfall both (pos 50000) (allocate both (pos 50000)).0 (allocate both (pos 50000)).1
allocate-IsWaterfall_example = allocate-IsWaterfall both (pos 50000) both-AllOwing (omega arith)

take_share-IsWithin_example : IsWithin first_installment (take_share first_installment (pos 50000))
take_share-IsWithin_example =
    take_share-IsWithin first_installment (pos 50000) first_installment-IsOwing (omega arith)

oldest_first_example :
    let (out, left) = allocate_sorted (first_installment ∷ []) (pos 50000) in
    let (later, rest) = allocate_sorted (second_installment ∷ []) left in
    (allocate_sorted both (pos 50000) ≡ (out ++ later, rest))
    × ((later ≡ []) ⊎ (sum_ℤ total out ≡ outstanding_total (first_installment ∷ [])))
oldest_first_example =
    oldest_first (first_installment ∷ []) (second_installment ∷ []) (pos 50000)
      (first_installment-IsOwing, tt) (omega arith)

settlement-IsBalanced_example :
    let q = applied_payment payment (allocate both (pos 50000)) in
    IsBalanced (
      repayment_lines q.amount q.principal_applied q.interest_applied q.fee_applied
        q.unapplied_amount)
settlement-IsBalanced_example = settlement-IsBalanced payment both both-AllOwing (omega arith)

abbrev or_else : Result RepaymentError Desk → Desk → Desk
or_else (ok a) b = a
or_else (err e) b = b

settled : Desk
settled = or_else (settle fingerprint nobody desk) desk

settled_ok : settle fingerprint nobody desk ≡ ok settled
unfolding settled settle allocate allocate_sorted take_share add_share sort_by_number
    insert_by_number min_ℤ ◌+ℤ◌ ◌-ℤ◌ applied_payment move moved can_transition post_settlement
    post_repayment repayment_lines credit_if_positive settled_desk credit_rows credit_row
    stored_status post post_new validate_lines check_lines check_line has_two_decimals paise
    paise_of half_even check_accounts insert_header finish_post same_or_conflict get_by_key
    get_by_id insert_entries entry_rows header payload total_of
settled_ok = refl

returned : Desk
returned = or_else (reverse_payment fingerprint nobody settled) desk

returned_ok : reverse_payment fingerprint nobody settled ≡ ok returned
unfolding returned reverse_payment post_reversal reverse_repayment reverse reversal_posting
    reversal_of get_reversal_of entries_with_accounts mirror reversed_desk debit_rows debit_row
    settled settle allocate allocate_sorted take_share add_share sort_by_number insert_by_number
    min_ℤ ◌+ℤ◌ ◌-ℤ◌ applied_payment move moved can_transition post_settlement post_repayment
    repayment_lines credit_if_positive settled_desk credit_rows credit_row stored_status post
    post_new validate_lines check_lines check_line has_two_decimals paise paise_of half_even
    check_accounts insert_header finish_post same_or_conflict get_by_key get_by_id insert_entries
    entry_rows header payload total_of
returned_ok = refl

pending-open : is_open pending ≡ true
unfolding is_open
pending-open = refl

rows-IsConsistent : All IsConsistent desk.rows
unfolding stored_status ◌+ℤ◌ ◌-ℤ◌
rows-IsConsistent = (refl, (refl, tt))

settle_then_reverse_example : returned.rows ≡ desk.rows
settle_then_reverse_example =
    settle_then_reverse fingerprint nobody nobody desk settled returned pending-open refl
      rows-IsConsistent settled_ok returned_ok
