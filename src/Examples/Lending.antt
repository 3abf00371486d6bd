-- ===== src/Examples/Lending.antt =====
-- Runs of making a schedule and of asking to pay (`build_schedule` of app/domain/repayment.py and
-- `initiate_payment` of app/services/repayment.py).
use inpockets.Base.{◌/◌, true, false, List, [], ◌∷◌, none, some, ok, err, length, ◌≡◌, refl, arith}
use inpockets.Base.Int.{pos, ◌+ℤ◌, ◌-ℤ◌}
use inpockets.Base.Decimal.{has_two_decimals, paise, paise_of}
use inpockets.Base.Rounding.{half_even}
use inpockets.Repayment.{initiated, InstallmentState, is_open}
use inpockets.Repayment.Schedule.{InstallmentPlan, build_schedule, principal_too_small}
use inpockets.Repayment.Splitting.{
  IsPlanned, IsRefusal, principal_sum, build_schedule_succeeds, build_schedule_errors,
}
use inpockets.Repayment.Payments.Initiating.{
  Attempt, Attempts, Offer, is_client_key, attempt_by_key, count_open, new_attempt, record_attempt,
  attempt_on, initiate_payment,
}
use inpockets.Repayment.Initiation.{initiate_payment-replay}
use inpockets.Base.Decimal.{of_paise}

abbrev first_installment : InstallmentState
first_installment = record {
  id = 11;
  number = 1;
  due_date = 30;
  principal_due = pos 40000;
  interest_due = pos 1000;
  fee_due = pos 500;
  principal_paid = pos 0;
  interest_paid = pos 0;
  fee_paid = pos 0;
}

abbrev second_installment : InstallmentState
second_installment = record {
  id = 12;
  number = 2;
  due_date = 60;
  principal_due = pos 40000;
  interest_due = pos 500;
  fee_due = pos 0;
  principal_paid = pos 0;
  interest_paid = pos 0;
  fee_paid = pos 0;
}

abbrev pub both : List InstallmentState
both = first_installment ∷ second_installment ∷ []

build_schedule_succeeds_example :
    (plans : List InstallmentPlan) × (build_schedule (pos 100000) 3 10 30 none ≡ ok plans)
    × (length plans ≡ 3)
    × (principal_sum plans ≡ pos 100000)
    × IsPlanned (100000 / 3) 10 30 1 plans
build_schedule_succeeds_example =
    build_schedule_succeeds 100000 3 10 30 none (omega arith) (omega arith) (omega arith)
      (omega arith) (omega arith)

two_paise_refused : build_schedule (pos 2) 3 10 30 none ≡ err principal_too_small
unfolding build_schedule
two_paise_refused = refl

build_schedule_errors_example : IsRefusal (pos 2) 3 30 principal_too_small
build_schedule_errors_example =
    build_schedule_errors (pos 2) 3 10 30 none principal_too_small two_paise_refused

abbrev offer : Offer
offer = record { id = 5; user_id = 3; schedule = some (record { id = 9; installments = both }) }

abbrev no_attempts : Attempts
no_attempts = record { rows = []; next_id = 21 }

abbrev asked : Attempt
asked = record {
  id = 21;
  user_id = 3;
  loan_offer_id = 5;
  schedule_id = 9;
  amount = pos 50000;
  status = initiated;
  client_idempotency_key = "pay-0001";
}

abbrev one_attempt : Attempts
one_attempt = record { rows = asked ∷ []; next_id = 22 }

asked_ok :
    initiate_payment 3 (some offer) (of_paise (pos 50000)) "pay-0001" no_attempts
    ≡ ok (asked, true, one_attempt)
unfolding initiate_payment attempt_on record_attempt new_attempt attempt_by_key count_open
    is_client_key is_open has_two_decimals paise paise_of half_even ◌+ℤ◌ ◌-ℤ◌
asked_ok = refl

initiate_payment-replay_example :
    initiate_payment 3 (some offer) (of_paise (pos 50000)) "pay-0001" one_attempt
    ≡ ok (asked, false, one_attempt)
initiate_payment-replay_example =
    initiate_payment-replay 3 (some offer) (of_paise (pos 50000)) "pay-0001" no_attempts asked true
      one_attempt asked_ok
