-- ===== src/Risk/Ordering.antt =====
-- Worse figures never lower the risk (app/services/risk_engine.py).
use native.Mathlib.Nat.{mul-le-mul_left, le_of_mul-le-mul_left, one-le-pow}
use inpockets.Base.{
  ℕ, ◌*◌, ◌^◌, ◌≤◌, ◌<◌, ◌≡◌, refl, Bool, true, false, List, Option, none, some, arith, leb→le,
  if◌then◌else◌,
}
use inpockets.Base.Int.{ℤ, pos, ◌≤ℤ◌, ltb_ℤ, pos_part}
use inpockets.Risk.{
  RiskLevel, low, medium, high, FraudLevel, low_fraud, medium_fraud, high_fraud, unknown_fraud,
  unlisted_level, Ratio, RiskFlag, RiskScorecardResult, RiskEngineInput, manual_review,
  credit_score_rule, delinquency_rule, inquiry_rule, fraud_rule, at_most_percent,
  obligation_contribution, obligation_ratio_rule, disposable_income_rule, evaluate_risk,
  derive_band, derive_action, assess_risk,
}

-- Both figures are missing, or the second is lower.
abbrev pub IsLower : Option ℤ → Option ℤ → Type 0
IsLower none none = Unit
IsLower (some a) (some b) = b ≤ℤ a
IsLower _ _ = ⊥

-- Both counts are missing, or the second is higher and the first is not negative.
abbrev pub IsHigher : Option ℤ → Option ℤ → Type 0
IsHigher none none = Unit
IsHigher (some a) (some b) = (pos 0 ≤ℤ a) × (a ≤ℤ b)
IsHigher _ _ = ⊥

abbrev pub IsHigherRatio : Option Ratio → Option Ratio → Type 0
IsHigherRatio none none = Unit
IsHigherRatio (some r) (some s) =
    (pos 0 ≤ℤ r.coefficient)
    × (pos 0 ≤ℤ s.coefficient)
    × (pos_part r.coefficient * 10 ^ s.places ≤ pos_part s.coefficient * 10 ^ r.places)
IsHigherRatio _ _ = ⊥

-- The levels of fraud in order; an unknown one is between low and medium.
abbrev fraud_rank : FraudLevel → ℕ
fraud_rank low_fraud = 0
fraud_rank unknown_fraud = 1
fraud_rank medium_fraud = 2
fraud_rank high_fraud = 3
fraud_rank unlisted_level = 4

abbrev pub IsMoreFraud : Option FraudLevel → Option FraudLevel → Type 0
IsMoreFraud none none = Unit
IsMoreFraud (some f) (some g) = (fraud_rank f ≤ fraud_rank g) × (fraud_rank g < 4)
IsMoreFraud _ _ = ⊥

-- The second application is worse in every figure, or equal.
pub record IsWorse (x y : RiskEngineInput) : Type 0 where
  pub credit : IsLower x.credit_score y.credit_score
  pub delinquency : IsHigher x.delinquent_accounts y.delinquent_accounts
  pub inquiries : IsHigher x.recent_inquiries y.recent_inquiries
  pub fraud : IsMoreFraud x.fraud_risk_level y.fraud_risk_level
  pub obligations : IsHigherRatio x.existing_obligation_ratio y.existing_obligation_ratio
  pub disposable : IsLower x.disposable_monthly_income y.disposable_monthly_income

-- A rule scores the worse figure no lower, and flags both alike.
abbrev Rises : RiskScorecardResult → RiskScorecardResult → Type 0
Rises r s = (r.score ≤ s.score) × (r.flags ≡ s.flags)

credit_score_rule-Rises :
    (m n : ℕ) (x y : Option ℤ)
    → m ≤ n
    → IsLower x y
    → Rises (credit_score_rule m x) (credit_score_rule n y)
unfolding credit_score_rule
credit_score_rule-Rises m n none none h w = (h, refl)
credit_score_rule-Rises m n none (some b) h w = absurd w
credit_score_rule-Rises m n (some a) none h w = absurd w
credit_score_rule-Rises m n (some a) (some b) h w = ground (arith, h, w)

delinquency_rule-Rises :
    (m n : ℕ) (x y : Option ℤ)
    → m ≤ n
    → IsHigher x y
    → Rises (delinquency_rule m x) (delinquency_rule n y)
unfolding delinquency_rule
delinquency_rule-Rises m n none none h w = (h, refl)
delinquency_rule-Rises m n none (some b) h w = absurd w
delinquency_rule-Rises m n (some a) none h w = absurd w
delinquency_rule-Rises m n (some a) (some b) h w = ground (arith, h, w.0, w.1)

inquiry_rule-Rises :
    (m n : ℕ) (x y : Option ℤ) → m ≤ n → IsHigher x y → Rises (inquiry_rule m x) (inquiry_rule n y)
unfolding inquiry_rule
inquiry_rule-Rises m n none none h w = (h, refl)
inquiry_rule-Rises m n none (some b) h w = absurd w
inquiry_rule-Rises m n (some a) none h w = absurd w
inquiry_rule-Rises m n (some a) (some b) h w = ground (arith, h, w.0, w.1)

disposable_income_rule-Rises :
    (m n : ℕ) (x y : Option ℤ)
    → m ≤ n
    → IsLower x y
    → Rises (disposable_income_rule m x) (disposable_income_rule n y)
unfolding disposable_income_rule
disposable_income_rule-Rises m n none none h w = (h, refl)
disposable_income_rule-Rises m n none (some b) h w = absurd w
disposable_income_rule-Rises m n (some a) none h w = absurd w
disposable_income_rule-Rises m n (some a) (some b) h w = ground (arith, h, w)

fraud_rule-Rises :
    (m n : ℕ) (x y : Option FraudLevel)
    → m ≤ n
    → IsMoreFraud x y
    → Rises (fraud_rule m x) (fraud_rule n y)
unfolding fraud_rule
fraud_rule-Rises m n none none h w = (h, refl)
fraud_rule-Rises m n none (some b) h w = absurd w
fraud_rule-Rises m n (some a) none h w = absurd w
fraud_rule-Rises m n (some a) (some b) h w = ground (arith, h, w.0, w.1)

percent_mono : (m n p q t : ℕ) → 0 < p → 0 < q → m * q ≤ n * p → n * 100 ≤ t * q → m * 100 ≤ t * p
percent_mono m n p q t hp hq order h =
    let scaled : p * (n * 100) ≤ p * (t * q) = mul-le-mul_left p h in
    let crossed : q * (m * 100) ≤ q * (t * p) = omega (arith, scaled, order) in
    le_of_mul-le-mul_left crossed hq

-- What a smaller ratio exceeds, a larger one exceeds.
at_most_percent_mono :
    (r s : Ratio) (t : ℕ)
    → pos_part r.coefficient * 10 ^ s.places ≤ pos_part s.coefficient * 10 ^ r.places
    → at_most_percent s t ≡ true
    → at_most_percent r t ≡ true
at_most_percent_mono r s t order h =
    let below = leb→le (pos_part s.coefficient * 100) (t * 10 ^ s.places) h in
    let below' =
      percent_mono (pos_part r.coefficient) (pos_part s.coefficient) (10 ^ r.places) (10 ^ s.places)
        t (one-le-pow r.places 10 (omega arith)) (one-le-pow s.places 10 (omega arith)) order
        below in
    ground (arith, below')

abbrev by_tests : Bool → Bool → Bool → ℕ × RiskLevel
by_tests a b c =
    if a then (0, low) else if b then (10, low) else if c then (20, medium) else (30, high)

obligation_contribution_mono :
    (r s : Ratio)
    → pos_part r.coefficient * 10 ^ s.places ≤ pos_part s.coefficient * 10 ^ r.places
    → (obligation_contribution r).0 ≤ (obligation_contribution s).0
obligation_contribution_mono r s order =
    let step = λ (t : ℕ). at_most_percent_mono r s t order in
    contributions (at_most_percent r 20) (at_most_percent r 40) (at_most_percent r 60)
      (at_most_percent s 20) (at_most_percent s 40) (at_most_percent s 60) (step 20) (step 40)
      (step 60)
  where
    contributions :
        (a b c a' b' c' : Bool)
        → (a' ≡ true → a ≡ true)
        → (b' ≡ true → b ≡ true)
        → (c' ≡ true → c ≡ true)
        → (by_tests a b c).0 ≤ (by_tests a' b' c').0
    contributions a b c a' b' c' x y z = ground (arith, x, y, z)

obligation_ratio_rule-Rises :
    (m n : ℕ) (x y : Option Ratio)
    → m ≤ n
    → IsHigherRatio x y
    → Rises (obligation_ratio_rule m x) (obligation_ratio_rule n y)
unfolding obligation_ratio_rule
obligation_ratio_rule-Rises m n none none h w = (h, refl)
obligation_ratio_rule-Rises m n none (some b) h w = absurd w
obligation_ratio_rule-Rises m n (some a) none h w = absurd w
obligation_ratio_rule-Rises m n (some a) (some b) h w =
    let valid : ltb_ℤ a.coefficient (pos 0) ≡ false = ground (arith, w.0) in
    let valid' : ltb_ℤ b.coefficient (pos 0) ≡ false = ground (arith, w.1) in
    let order = obligation_contribution_mono a b w.2 in
    rw (valid, valid') (omega (arith, h, order), refl)

-- Worse figures never lower the score, and give the same flags.
evaluate_risk-Rises :
    (x y : RiskEngineInput) → IsWorse x y → Rises (evaluate_risk x) (evaluate_risk y)
unfolding evaluate_risk
evaluate_risk-Rises x y w =
    let a = credit_score_rule-Rises 0 0 _ _ (omega arith) w.credit in
    let b = delinquency_rule-Rises _ _ _ _ a.0 w.delinquency in
    let c = inquiry_rule-Rises _ _ _ _ b.0 w.inquiries in
    let d = fraud_rule-Rises _ _ _ _ c.0 w.fraud in
    let e = obligation_ratio_rule-Rises _ _ _ _ d.0 w.obligations in
    let f = disposable_income_rule-Rises _ _ _ _ e.0 w.disposable in
    (omega (arith, f.0), rw (a.1, b.1, c.1, d.1, e.1, f.1) refl)

evaluate_risk-max : (x : RiskEngineInput) → (evaluate_risk x).score ≤ 100
unfolding evaluate_risk
evaluate_risk-max x = omega arith

derive_action_mono :
    (m n : ℕ) (flags : List RiskFlag)
    → m ≤ n
    → derive_action (derive_band m) flags ≡ manual_review
    → derive_action (derive_band n) flags ≡ manual_review
unfolding derive_action derive_band
derive_action_mono m n flags h e = ground (arith, h, e)

-- Worse figures never make an application look safer, as far as they are meaningful: if a second
-- application has the same figures missing, and in each of the others is worse or equal (lower
-- credit score or disposable income; more delinquent accounts, inquiries or obligations; more
-- fraud), where the counts of the first are not negative, neither obligation ratio is negative, and
-- both fraud levels are recognised ones (low, unknown, medium and high, in this order), then its score is no lower, its score is at most 100, and
-- it goes to manual review if the first one does.
pub assess_risk_mono :
    (x y : RiskEngineInput)
    → IsWorse x y
    → ((assess_risk x).risk_score ≤ (assess_risk y).risk_score)
      × ((assess_risk y).risk_score ≤ 100)
      × ((assess_risk x).recommended_action ≡ manual_review
          → (assess_risk y).recommended_action ≡ manual_review)
unfolding assess_risk
assess_risk_mono x y w =
    let (order, flags) = evaluate_risk-Rises x y w in
    (
      order,
      evaluate_risk-max y,
      λ e. rw (← flags) (
          derive_action_mono (evaluate_risk x).score (evaluate_risk y).score (evaluate_risk x).flags
            order e),
    )
