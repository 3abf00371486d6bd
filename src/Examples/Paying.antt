-- ===== src/Examples/Paying.antt =====
-- Runs of the payout service (app/services/disbursement.py): a payout is claimed, sent, reported paid
-- and then returned.
use inpockets.Base.{◌≡◌, ◌≢◌, ◌++◌, arith, ok, true, false, List, [], ◌∷◌, none, some, refl}
use inpockets.Base.Int.{pos, ◌-ℤ◌}
use inpockets.Ledger.{liability, credit}
use inpockets.Ledger.Tables.{disbursement_paid, get_by_key}
use inpockets.Ledger.Keys.{has_key, IsQuiet}
use inpockets.Statuses.Disbursement.{pending, processing, failed, is_live}
use inpockets.Statuses.Finality.{PayoutReaches}
use inpockets.Payout.{
  Payout, PayoutDesk, PayoutOutcome, was_processing, says_success, says_reversed,
}
use inpockets.Payout.Applying.{PayoutReport, apply_payout}
use inpockets.Payout.Submitting.{timeout, unreachable, found, reconcile_payout}
use inpockets.Payout.Soundness.{is_paid, IsSettled}
use inpockets.Payout.Calls.{
  PayoutWorld, PayoutCall, claim_due, submit_due, poll, callback, elsewhere, TellsStatus,
  call_payout, run_payout,
}
use inpockets.Payout.Running.{run_payout-Reaches, run_payout-IsSettled, call_payout-Agrees}
use inpockets.Payout.Answering.{IsPostable}
use inpockets.Payout.Resolving.{reconcile_payout_resolves}
use inpockets.Payout.Late.{IsLate, report_after_failure}
use inpockets.Examples.Accounting.{new_books, fingerprint, nobody, pricing, chart}

abbrev pub new_payout : Payout
new_payout = record {
  id = 7;
  user_id = 3;
  loan_offer_id = 5;
  amount = pos 98000;
  status = pending;
  attempt = 1;
  provider_ref = none;
  utr = none;
  failure_code = none;
  review_reason = none;
  dispatch_attempts = 0;
  requested_at = 100;
  dispatched_at = none;
}

abbrev world : PayoutWorld
world = (
  [],
  record {
    payout = new_payout;
    pricing = some pricing;
    books = new_books;
    audit = [];
    another_live = false;
    refs_of_others = "pay-8" ∷ [];
  },
)

abbrev paid_report : PayoutReport
paid_report = record {
  status = says_success;
  provider_ref = some "ref-1";
  utr = some "utr-1";
  amount = some (pos 98000);
  failure_code = none;
}

abbrev returned_report : PayoutReport
returned_report = record paid_report { status = says_reversed }

abbrev life : List PayoutCall
life =
    claim_due 110
    ∷ submit_due true timeout
    ∷ poll 120 1000 unreachable true timeout
    ∷ elsewhere true ("pay-8" ∷ [])
    ∷ callback "event-1" paid_report
    ∷ []

nobody-IsQuiet : IsQuiet (disbursement_paid 7) nobody
nobody-IsQuiet = λ b fresh. (fresh, refl)

world-IsSettled : IsSettled 7 world.1
unfolding has_key get_by_key is_paid is_live
world-IsSettled = record { own = refl; fresh = tt; booked = refl; single = refl }

run_payout-Reaches_example :
    PayoutReaches pending (run_payout fingerprint nobody life world).1.payout.status
run_payout-Reaches_example =
    run_payout-Reaches fingerprint nobody 7 nobody-IsQuiet life world world-IsSettled

run_payout-IsSettled_example : IsSettled 7 (run_payout fingerprint nobody life world).1
run_payout-IsSettled_example =
    run_payout-IsSettled fingerprint nobody 7 nobody-IsQuiet life world world-IsSettled

call_payout-Agrees_example : TellsStatus (
    call_payout fingerprint nobody
      (callback "event-2" returned_report)
      (run_payout fingerprint nobody life world))
call_payout-Agrees_example =
    call_payout-Agrees fingerprint nobody 7 nobody-IsQuiet life (callback "event-2" returned_report)
      world world-IsSettled

-- The payout has been with the provider since 110, and the ledger has all of its accounts.
abbrev sent_payout : PayoutDesk
sent_payout = record {
  payout = record new_payout { status = processing; dispatched_at = some 110 };
  pricing = some pricing;
  books = record new_books {
    accounts =
        chart
        ++ record {
          id = 4;
          code = "GST_PAYABLE";
          account_type = liability;
          normal_side = credit;
          is_active = true;
        }
          ∷ [];
  };
  audit = [];
  another_live = false;
  refs_of_others = "pay-8" ∷ [];
}

sent_payout-IsSettled : IsSettled 7 sent_payout
unfolding has_key get_by_key is_paid is_live
sent_payout-IsSettled = record { own = refl; fresh = tt; booked = refl; single = refl }

sent_payout-IsPostable : IsPostable sent_payout
unfolding ◌-ℤ◌
sent_payout-IsPostable = record {
  positive = omega arith;
  priced = (record { parts = refl; payout = refl }, omega arith, omega arith);
  chart = record {
    for_principal = (_, refl, refl);
    for_bank = (_, refl, refl);
    for_fee = (_, refl, refl);
    for_gst = (_, refl, refl);
  };
}

reconcile_payout_resolves_example :
    (outcome : PayoutOutcome) × (d : PayoutDesk) × (reconcile_payout fingerprint nobody 1200 1000
        (found paid_report)
        true
        timeout
        sent_payout
      ≡ ok (outcome, d))
    × (outcome ≢ was_processing)
    × (d.payout.status ≢ processing)
reconcile_payout_resolves_example =
    reconcile_payout_resolves fingerprint nobody 7 nobody-IsQuiet 1200 1000 (found paid_report) true
      timeout sent_payout refl (omega arith) ((λ e. cc), refl) sent_payout-IsSettled
      sent_payout-IsPostable

-- The payout has failed, and a retry is live.
abbrev failed_payout : PayoutDesk
failed_payout = record sent_payout {
  payout = record new_payout { status = failed };
  another_live = true;
}

report_after_failure_example :
    IsLate failed_payout (apply_payout fingerprint nobody paid_report false failed_payout)
report_after_failure_example =
    report_after_failure fingerprint nobody paid_report false failed_payout refl refl
