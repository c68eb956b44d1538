-- ===== src/Risk.antt =====
-- inference/risk.py: the risk score of the alerts of an incident. The score is in whole points, as all its weights are.
use ai_cyber_threat_detector.Common.{
  ℕ, ◌+◌, ◌-◌, ◌*◌, ◌≤◌, ◌≡◌, refl, List, [], ◌∷◌, ◌++◌, String, min, max, length, length-append,
  or_else, arith,
}
use ai_cyber_threat_detector.Common.Dict
use ai_cyber_threat_detector.Common.Dict.{Dict}
use ai_cyber_threat_detector.Common.Case.{lower}

abbrev severity_weights : Dict ℕ
severity_weights = ("critical", 100) ∷ ("high", 75) ∷ ("medium", 50) ∷ ("low", 25) ∷ []

-- The weight of an alert's severity, which is "low" if it has none. Here an alert is given by that text.
weight : String → ℕ
weight severity = or_else (Dict.get severity_weights (lower severity)) 10

-- `max` of the weights
base_score : List String → ℕ
base_score [] = 0
base_score (severity ∷ alerts) = max (weight severity) (base_score alerts)

pub calculate_risk_score : List String → ℕ
calculate_risk_score [] = 0
calculate_risk_score (a ∷ alerts) =
    min (base_score (a ∷ alerts) + (length (a ∷ alerts) - 1) * 5) 100

weight_low : (severity : String) → 10 ≤ weight severity
unfolding weight Dict.get
weight_low severity = ground arith

base_score-append :
    (xs ys : List String) → base_score (xs ++ ys) ≡ max (base_score xs) (base_score ys)
unfolding base_score
base_score-append [] ys = omega arith
base_score-append (x ∷ xs) ys = omega (arith, base_score-append xs ys)

score : List String → ℕ
score alerts = min (base_score alerts + (length alerts - 1) * 5) 100

calculate_risk_score-score : (alerts : List String) → calculate_risk_score alerts ≡ score alerts
unfolding calculate_risk_score score base_score
calculate_risk_score-score [] = refl
calculate_risk_score-score (a ∷ alerts) = refl

-- More alerts never lower the risk, wherever they are added.
pub calculate_risk_score_mono :
    (xs ys zs : List String)
    → calculate_risk_score (xs ++ zs) ≤ calculate_risk_score (xs ++ (ys ++ zs))
unfolding score
calculate_risk_score_mono xs ys zs =
    rw (calculate_risk_score-score (xs ++ zs), calculate_risk_score-score (xs ++ (ys ++ zs)))
      (omega (
        arith,
        base_score-append xs zs,
        base_score-append xs (ys ++ zs),
        base_score-append ys zs,
        length-append xs zs,
        length-append xs (ys ++ zs),
        length-append ys zs,
      ))

-- The risk of any alerts is between 10 and 100, and that of none is 0.
pub calculate_risk_score_range :
    (alerts : List String)
    → (calculate_risk_score alerts ≤ 100)
      × (calculate_risk_score [] ≡ 0)
      × ((a : String) → 10 ≤ calculate_risk_score (a ∷ alerts))
unfolding calculate_risk_score base_score
calculate_risk_score_range [] = (omega arith, refl, λ a. omega (arith, weight_low a))
calculate_risk_score_range (b ∷ alerts) = (omega arith, refl, λ a. omega (arith, weight_low a))
