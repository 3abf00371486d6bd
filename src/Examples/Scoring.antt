-- ===== src/Examples/Scoring.antt =====
-- Runs of the risk engine (app/services/risk_engine.py).
use inpockets.Base.{◌≤◌, ◌≡◌, arith, some}
use inpockets.Base.Int.{pos}
use inpockets.Risk.{RiskEngineInput, low_fraud, medium_fraud, manual_review, assess_risk}
use inpockets.Risk.Ordering.{IsWorse, assess_risk_mono}

abbrev steady : RiskEngineInput
steady = record {
  credit_score = some (pos 720);
  delinquent_accounts = some (pos 0);
  recent_inquiries = some (pos 1);
  fraud_risk_level = some low_fraud;
  existing_obligation_ratio = some (record { coefficient = pos 15; places = 2 });
  disposable_monthly_income = some (pos 500000);
}

abbrev strained : RiskEngineInput
strained = record {
  credit_score = some (pos 640);
  delinquent_accounts = some (pos 1);
  recent_inquiries = some (pos 4);
  fraud_risk_level = some medium_fraud;
  existing_obligation_ratio = some (record { coefficient = pos 450; places = 3 });
  disposable_monthly_income = some (pos 0);
}

strained-IsWorse : IsWorse steady strained
strained-IsWorse = record {
  credit = omega arith;
  delinquency = (omega arith, omega arith);
  inquiries = (omega arith, omega arith);
  fraud = (omega arith, omega arith);
  obligations = (omega arith, omega arith, omega arith);
  disposable = omega arith;
}

assess_risk_mono_example :
    ((assess_risk steady).risk_score ≤ (assess_risk strained).risk_score)
    × ((assess_risk strained).risk_score ≤ 100)
    × ((assess_risk steady).recommended_action ≡ manual_review
        → (assess_risk strained).recommended_action ≡ manual_review)
assess_risk_mono_example = assess_risk_mono steady strained strained-IsWorse
