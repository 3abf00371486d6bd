-- ===== src/Risk.antt =====
-- The risk engine (app/services/risk_engine.py and app/domain/risk.py): a score of six rules, its band
-- and the recommended action. Of a factor its code and impact are kept, of a flag its code and
-- severity. Incomes are integers of paise; a ratio is a finite Decimal.
pub mod Ordering
use inpockets.Base.{
  ℕ, ◌+◌, ◌*◌, ◌^◌, ltb, leb, min, String, Bool, true, false, List, [], ◌∷◌, ◌++◌, Option, none,
  some, if◌then◌else◌,
}
use inpockets.Base.Int.{ℤ, pos, ltb_ℤ, leb_ℤ, eqb_ℤ, pos_part}

-- The severity of a flag and the impact of a factor.
pub data RiskLevel : Type 0 where
  low medium high : RiskLevel

pub data RiskBand : Type 0 where
  low_band medium_band high_band : RiskBand

pub data RiskAction : Type 0 where
  assess_further manual_review : RiskAction

-- `fraud_risk_level.upper()`; `unlisted_level` is any other text.
pub data FraudLevel : Type 0 where
  low_fraud medium_fraud high_fraud unknown_fraud unlisted_level : FraudLevel

-- A coefficient over a power of ten.
pub record Ratio : Type 0 where
  pub coefficient : ℤ
  pub places : ℕ

pub record RiskFactor : Type 0 where
  pub code : String
  pub impact : RiskLevel

pub record RiskFlag : Type 0 where
  pub code : String
  pub severity : RiskLevel

-- The fields that the scorecard reads.
pub record RiskEngineInput : Type 0 where
  pub credit_score : Option ℤ
  pub delinquent_accounts : Option ℤ
  pub recent_inquiries : Option ℤ
  pub fraud_risk_level : Option FraudLevel
  pub existing_obligation_ratio : Option Ratio
  pub disposable_monthly_income : Option ℤ

-- `RiskScorecardResult`, and what each rule returns.
pub record RiskScorecardResult : Type 0 where
  pub score : ℕ
  pub factors : List RiskFactor
  pub flags : List RiskFlag

pub record RiskEngineResult : Type 0 where
  pub risk_score : ℕ
  pub risk_band : RiskBand
  pub risk_factors : List RiskFactor
  pub risk_flags : List RiskFlag
  pub recommended_action : RiskAction

-- `return score, [], [RiskFlag(...)]`
abbrev pub flagged : ℕ → String → RiskLevel → RiskScorecardResult
flagged score code severity = record {
  score = score;
  factors = [];
  flags = record { code = code; severity = severity } ∷ [];
}

-- `return score + contribution, [factor], []`
abbrev pub contributed : ℕ → String → ℕ × RiskLevel → RiskScorecardResult
contributed score code (contribution, impact) = record {
  score = score + contribution;
  factors = record { code = code; impact = impact } ∷ [];
  flags = [];
}

abbrev pub credit_contribution : ℤ → ℕ × RiskLevel
credit_contribution credit_score =
    if ltb_ℤ credit_score (pos 600)
    then (25, high)
    else if ltb_ℤ credit_score (pos 650)
    then (18, medium)
    else if ltb_ℤ credit_score (pos 700)
    then (10, low)
    else (0, low)

-- `_credit_score_rule`
unfoldable pub credit_score_rule : ℕ → Option ℤ → RiskScorecardResult
credit_score_rule score none = flagged score "CREDIT_SCORE_MISSING" medium
credit_score_rule score (some n) = contributed score "CREDIT_SCORE" (credit_contribution n)

abbrev pub delinquency_contribution : ℤ → ℕ × RiskLevel
delinquency_contribution n =
    if eqb_ℤ n (pos 0) then (0, low) else if eqb_ℤ n (pos 1) then (15, medium) else (25, high)

-- `_delinquency_rule`
unfoldable pub delinquency_rule : ℕ → Option ℤ → RiskScorecardResult
delinquency_rule score none = flagged score "DELINQUENCY_DATA_MISSING" medium
delinquency_rule score (some n) =
    if ltb_ℤ n (pos 0)
    then flagged score "DELINQUENCY_DATA_INVALID" high
    else contributed score "DELINQUENT_ACCOUNTS" (delinquency_contribution n)

abbrev pub inquiry_contribution : ℤ → ℕ × RiskLevel
inquiry_contribution n =
    if leb_ℤ n (pos 1) then (0, low) else if leb_ℤ n (pos 3) then (5, low) else (10, medium)

-- `_inquiry_rule`
unfoldable pub inquiry_rule : ℕ → Option ℤ → RiskScorecardResult
inquiry_rule score none = flagged score "RECENT_INQUIRIES_MISSING" low
inquiry_rule score (some n) =
    if ltb_ℤ n (pos 0)
    then flagged score "RECENT_INQUIRIES_INVALID" medium
    else contributed score "RECENT_INQUIRIES" (inquiry_contribution n)

-- `_fraud_rule`
unfoldable pub fraud_rule : ℕ → Option FraudLevel → RiskScorecardResult
fraud_rule score none = flagged score "FRAUD_RISK_MISSING" high
fraud_rule score (some unlisted_level) = flagged score "FRAUD_RISK_INVALID" high
fraud_rule score (some low_fraud) = contributed score "FRAUD_RISK" (0, low)
fraud_rule score (some medium_fraud) = contributed score "FRAUD_RISK" (20, medium)
fraud_rule score (some high_fraud) = contributed score "FRAUD_RISK" (35, high)
fraud_rule score (some unknown_fraud) = contributed score "FRAUD_RISK" (10, medium)

-- A ratio that is not negative is at most so many per cent.
abbrev pub at_most_percent : Ratio → ℕ → Bool
at_most_percent r percent = leb (pos_part r.coefficient * 100) (percent * 10 ^ r.places)

abbrev pub obligation_contribution : Ratio → ℕ × RiskLevel
obligation_contribution r =
    if at_most_percent r 20
    then (0, low)
    else if at_most_percent r 40
    then (10, low)
    else if at_most_percent r 60
    then (20, medium)
    else (30, high)

-- `_obligation_ratio_rule`
unfoldable pub obligation_ratio_rule : ℕ → Option Ratio → RiskScorecardResult
obligation_ratio_rule score none = flagged score "OBLIGATION_RATIO_MISSING" medium
obligation_ratio_rule score (some r) =
    if ltb_ℤ r.coefficient (pos 0)
    then flagged score "OBLIGATION_RATIO_INVALID" high
    else contributed score "EXISTING_OBLIGATION_RATIO" (obligation_contribution r)

abbrev pub disposable_contribution : ℤ → ℕ × RiskLevel
disposable_contribution n =
    if ltb_ℤ n (pos 0) then (20, high) else if eqb_ℤ n (pos 0) then (15, high) else (0, low)

-- `_disposable_income_rule`
unfoldable pub disposable_income_rule : ℕ → Option ℤ → RiskScorecardResult
disposable_income_rule score none = flagged score "DISPOSABLE_INCOME_MISSING" medium
disposable_income_rule score (some n) =
    contributed score "DISPOSABLE_MONTHLY_INCOME" (disposable_contribution n)

-- `RiskScorecardV1.evaluate`
unfoldable pub evaluate_risk : RiskEngineInput → RiskScorecardResult
evaluate_risk x =
    let a = credit_score_rule 0 x.credit_score in
    let b = delinquency_rule a.score x.delinquent_accounts in
    let c = inquiry_rule b.score x.recent_inquiries in
    let d = fraud_rule c.score x.fraud_risk_level in
    let e = obligation_ratio_rule d.score x.existing_obligation_ratio in
    let f = disposable_income_rule e.score x.disposable_monthly_income in
    record {
      score = min f.score 100;
      factors = a.factors ++ (b.factors ++ (c.factors ++ (d.factors ++ (e.factors ++ f.factors))));
      flags = a.flags ++ (b.flags ++ (c.flags ++ (d.flags ++ (e.flags ++ f.flags))));
    }

-- `_derive_band`
unfoldable pub derive_band : ℕ → RiskBand
derive_band score =
    if ltb score 30 then low_band else if ltb score 60 then medium_band else high_band

abbrev pub is_high : RiskLevel → Bool
is_high high = true
is_high _ = false

-- `any(flag.severity == "HIGH" for flag in flags)`
unfoldable pub any_high : List RiskFlag → Bool
any_high [] = false
any_high (flag ∷ flags) = let rest = any_high flags in if is_high flag.severity then true else rest

abbrev pub is_high_band : RiskBand → Bool
is_high_band high_band = true
is_high_band _ = false

-- `_derive_action`
unfoldable pub derive_action : RiskBand → List RiskFlag → RiskAction
derive_action band flags =
    if any_high flags
    then manual_review
    else if is_high_band band
    then manual_review
    else assess_further

-- `RiskEngine.assess`
unfoldable pub assess_risk : RiskEngineInput → RiskEngineResult
assess_risk x =
    let r = evaluate_risk x in
    let band = derive_band r.score in
    record {
      risk_score = r.score;
      risk_band = band;
      risk_factors = r.factors;
      risk_flags = r.flags;
      recommended_action = derive_action band r.flags;
    }
