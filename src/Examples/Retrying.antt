-- ===== src/Examples/Retrying.antt =====
-- Runs of creating and retrying payouts (app/services/disbursement.py).
use inpockets.Base.{ℕ, find, ◌==◌, Result, err, ◌≡◌, arith, ok, true, [], ◌∷◌, some, refl}
use inpockets.Base.Int.{pos}
use inpockets.Statuses.Disbursement.{failed, is_live}
use inpockets.Payout.{Payout}
use inpockets.Payout.Submitting.{not_found}
use inpockets.Payout.Creating.{
  PayoutOffer, PayoutTable, CreateError, RetryOutcome, refused, create_for_offer, live_for_offer,
  key_is_used, count_for_offer, retry_payout, retry_failed, new_row, insert_payout,
}
use inpockets.Payout.Numbering.{IsOrderly}
use inpockets.Payout.Ordering.{IsPayable, create_for_offer_once}
use inpockets.Payout.Retrying.{retry_payout-IsOrderly}
use inpockets.Examples.Accounting.{pricing}
use inpockets.Examples.Paying.{new_payout}

-- The offer of the payout, whose first payout has failed.
abbrev payable_offer : PayoutOffer
payable_offer = record {
  id = 5;
  user_id = 3;
  principal_amount = pos 100000;
  is_accepted = true;
  is_signed = true;
  has_verified_account = true;
  pricing = some pricing;
}

abbrev failed_table : PayoutTable
failed_table = record { rows = record new_payout { status = failed } ∷ []; next_id = 8 }

failed_table-IsOrderly : IsOrderly failed_table.rows
unfolding key_is_used count_for_offer is_live
failed_table-IsOrderly = record {
  numbered = (λ o n used. ground arith);
  single = (λ o. ground arith);
}

payable_offer-IsPayable : IsPayable payable_offer
payable_offer-IsPayable = record { accepted = refl; signed = refl; account = refl; positive = refl }

create_for_offer_once_example :
    (p : Payout) × (t : PayoutTable) × (create_for_offer 200 (some payable_offer) failed_table
      ≡ ok (p, t))
    × (live_for_offer 5 t.rows ≡ some p)
    × IsOrderly t.rows
    × ((later : ℕ) → create_for_offer later (some payable_offer) t ≡ ok (p, t))
create_for_offer_once_example =
    create_for_offer_once 200 payable_offer failed_table payable_offer-IsPayable
      failed_table-IsOrderly

abbrev retry_or_else : Result CreateError (RetryOutcome × PayoutTable) → RetryOutcome × PayoutTable
retry_or_else (ok x) = x
retry_or_else (err e) = (refused, failed_table)

after_retry : RetryOutcome × PayoutTable
after_retry = retry_or_else (retry_payout 200 not_found 12 7 payable_offer failed_table)

retry_done : retry_payout 200 not_found 12 7 payable_offer failed_table ≡ ok after_retry
unfolding after_retry retry_payout retry_failed new_row insert_payout key_is_used live_for_offer
    count_for_offer is_live
retry_done = refl

of_the_offer : (p : Payout) → find (λ r. r.id == 7) failed_table.rows ≡ some p → p.loan_offer_id ≡ 5
of_the_offer p h = ground (arith, h)

retry_payout-IsOrderly_example : IsOrderly after_retry.1.rows
retry_payout-IsOrderly_example =
    retry_payout-IsOrderly 200 not_found 12 7 payable_offer failed_table after_retry.0 after_retry.1
      of_the_offer failed_table-IsOrderly retry_done
