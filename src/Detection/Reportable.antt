-- ===== src/Detection/Reportable.antt =====
-- What the alerts of each rule of inference/rules.py have in common.
use ai_cyber_threat_detector.Common.{
  ℕ, ◌≤◌, ◌≡◌, inl, inr, refl, Bool, true, false, Option, List, [], ◌∷◌, String, if◌then◌else◌,
  contains, All, arith, Bool-cases,
}
use ai_cyber_threat_detector.Common.Int.{ℤ, below}
use ai_cyber_threat_detector.Detection.Event.{Value}
use ai_cyber_threat_detector.Detection.Rules.{
  Alert, ddos_rule, c2_rule, tunnelling_rule, dga_rule, ja4_rule, recon_rule, exfil_rule,
}

-- the severities that ALERT_SCHEMA of inference/schemas.py admits
abbrev pub severities : List String
severities = "low" ∷ "medium" ∷ "high" ∷ "critical" ∷ []

-- the threat classes that docs/THREAT_TAXONOMY.md and the playbooks know
abbrev pub threat_classes : List String
threat_classes =
    "DDoS" ∷ "C2 Beaconing" ∷ "DGA / DNS Tunnelling" ∷ "Encrypted-Traffic Malware"
    ∷ "Reconnaissance" ∷ "Data Exfiltration" ∷ []

pub record IsReportable (a : Alert) : Type 0 where
  pub severity : contains a.severity severities ≡ true
  pub threat_class : contains a.threat_class threat_classes ≡ true
  pub confidence_low : 75 ≤ a.confidence
  pub confidence_high : a.confidence ≤ 100

All-when : (P : Alert → Type 0) (b : Bool) (a : Alert) → P a → All P (if b then a ∷ [] else [])
All-when P true a h = (h, tt)
All-when P false a h = tt

reportable :
    (a : Alert)
    → contains a.severity severities ≡ true
    → contains a.threat_class threat_classes ≡ true
    → 75 ≤ a.confidence
    → a.confidence ≤ 100
    → IsReportable a
reportable a s t l h = record {
  severity = s;
  threat_class = t;
  confidence_low = l;
  confidence_high = h;
}

pub ddos-IsReportable : (s : Option Value) (n : ℤ) → All IsReportable (ddos_rule s n)
unfolding ddos_rule
ddos-IsReportable s n = elim (Bool-cases (below 10000 n)) [
  | inl e ↦ rw e (reportable _ refl refl (omega arith) (omega arith), tt)
  | inr e ↦ rw e (All-when IsReportable _ _ (reportable _ refl refl (omega arith) (omega arith)))
]

pub c2-IsReportable : (a b p : ℤ) → All IsReportable (c2_rule a b p)
unfolding c2_rule
c2-IsReportable a b p =
    All-when IsReportable _ _ (reportable _ refl refl (omega arith) (omega arith))

pub tunnelling-IsReportable :
    (q : String) (t : Option Value) → All IsReportable (tunnelling_rule q t)
unfolding tunnelling_rule
tunnelling-IsReportable q t =
    All-when IsReportable _ _ (reportable _ refl refl (omega arith) (omega arith))

pub dga-IsReportable : (q : String) (e l : ℕ) (k : Bool) → All IsReportable (dga_rule q e l k)
unfolding dga_rule
dga-IsReportable q e l k =
    All-when IsReportable _ _ (reportable _ refl refl (omega arith) (omega arith))

pub ja4-IsReportable : (m : List String) (j : String) → All IsReportable (ja4_rule m j)
unfolding ja4_rule
ja4-IsReportable m j =
    All-when IsReportable _ _ (reportable _ refl refl (omega arith) (omega arith))

pub recon-IsReportable :
    (s : Option Value) (n : ℤ) (p : Option Value) → All IsReportable (recon_rule s n p)
unfolding recon_rule
recon-IsReportable s n p =
    All-when IsReportable _ _ (reportable _ refl refl (omega arith) (omega arith))

pub exfil-IsReportable : (a b : ℤ) → All IsReportable (exfil_rule a b)
unfolding exfil_rule
exfil-IsReportable a b =
    All-when IsReportable _ _ (reportable _ refl refl (omega arith) (omega arith))
