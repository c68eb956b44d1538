-- ===== src/Correlation/Severity.antt =====
-- The severities and the sets of the report of inference/correlation.py.
use ai_cyber_threat_detector.Common.{
  ◌≤◌, ◌≡◌, refl, true, false, Option, none, some, List, [], ◌∷◌, String, str_eq, leb, contains,
  Bool-cases, inl, inr, arith, eq_refl, eq_iff, leb→le,
}
use ai_cyber_threat_detector.Common.{◌++◌ as ◌⧺◌}
use ai_cyber_threat_detector.Common.Dict
use ai_cyber_threat_detector.Common.Case.{lower, lower_char}
use ai_cyber_threat_detector.Correlation.Report.{sev_weight, include, raise_severity}

sev_weight_low : (s : String) → 25 ≤ sev_weight s
unfolding sev_weight Dict.get
sev_weight_low s = ground arith

-- a severity that is known is in lower case already
known-lower :
    (k s : String)
    → str_eq k s ≡ true
    → sev_weight k ≤ sev_weight (lower k)
    → sev_weight s ≤ sev_weight (lower s)
known-lower k s e h = rw (← (eq_iff k s).0 e) h

sev_weight-lower : (s : String) → sev_weight s ≤ sev_weight (lower s)
unfolding sev_weight Dict.get lower lower_char
sev_weight-lower s = elim (Bool-cases (str_eq "critical" s)) [
  | inl e ↦ known-lower "critical" s e (omega arith)
  | inr e ↦ elim (Bool-cases (str_eq "high" s)) [
    | inl f ↦ known-lower "high" s f (omega arith)
    | inr f ↦ elim (Bool-cases (str_eq "medium" s)) [
      | inl g ↦ known-lower "medium" s g (omega arith)
      | inr g ↦ unknown e f g
    ]
  ]
]
  where
    unknown :
        str_eq "critical" s ≡ false
        → str_eq "high" s ≡ false
        → str_eq "medium" s ≡ false
        → sev_weight s ≤ sev_weight (lower s)
    unknown e f g = ground (arith, e, f, g, sev_weight_low (lower s))

contains-append : (s : String) (l m : List String) → contains s l ≡ true → contains s (l ⧺ m) ≡ true
contains-append s [] m h = absurd (cc h)
contains-append s (x ∷ l) m h = ground (arith, contains-append s l m, h)

contains-last : (s : String) (l : List String) → contains s (l ⧺ s ∷ []) ≡ true
contains-last s [] = rw (eq_refl s) refl
contains-last s (x ∷ l) = ground (arith, contains-last s l)

pub include-keeps :
    (o : Option String) (s : String) (l : List String)
    → contains s l ≡ true
    → contains s (include o l) ≡ true
unfolding include
include-keeps none s l h = h
include-keeps (some t) s l h = ground (arith, h, contains-append s l (t ∷ []) h)

pub include-adds :
    (s : String) (l : List String) → str_eq s "" ≡ false → contains s (include (some s) l) ≡ true
unfolding include
include-adds s l h = elim (Bool-cases (contains s l)) [
  | inl e ↦ rw (h, e) e
  | inr e ↦ rw (h, e) (contains-last s l)
]

-- the highest severity only rises, and reaches each severity that it met
pub raise_severity-rises :
    (a m : String)
    → (sev_weight (lower m) ≤ sev_weight (lower (raise_severity a m)))
      × (sev_weight a ≤ sev_weight (lower (raise_severity a m)))
unfolding raise_severity
raise_severity-rises a m = elim (Bool-cases (leb (sev_weight (lower m)) (sev_weight a))) [
  | inl e ↦
      let le = leb→le (sev_weight (lower m)) (sev_weight a) e in
      rw e (omega (arith, le, sev_weight-lower a), sev_weight-lower a)
  | inr e ↦ rw e (omega arith, ground (arith, e))
]
