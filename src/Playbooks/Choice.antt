-- ===== src/Playbooks/Choice.antt =====
-- Which template inference/playbooks.py chooses for the alerts of inference/rules.py.
use ai_cyber_threat_detector.Common.{
  ◌≡◌, refl, true, some, List, [], ◌∷◌, String, str_eq, eq_iff, is_some, All, contains, Bool-cases,
  inl, inr,
}
use ai_cyber_threat_detector.Common.Dict
use ai_cyber_threat_detector.Common.Dict.{Dict}
use ai_cyber_threat_detector.Common.Case.{upper, upper_char}
use ai_cyber_threat_detector.Common.Text.{strip, lstrip, rstrip_by, is_space}
use ai_cyber_threat_detector.Detection.Event.{Value}
use ai_cyber_threat_detector.Detection.Features.{Features}
use ai_cyber_threat_detector.Detection.Rules
use ai_cyber_threat_detector.Detection.Rules.{evaluate_rules}
use ai_cyber_threat_detector.Detection.Reportable.{threat_classes, IsReportable}
use ai_cyber_threat_detector.Detection.Laws.{evaluate_rules-IsReportable}
use ai_cyber_threat_detector.Playbooks.Templates.{playbook_templates, threat_class_map}
use ai_cyber_threat_detector.Playbooks.Generate.{normalized_key}

-- the class has an entry of its own, and the entry names a template
abbrev pub HasPlaybook : String → Type 0
HasPlaybook threat_class =
    (is_some (Dict.get threat_class_map (upper (strip threat_class))) ≡ true)
    × (is_some (Dict.get playbook_templates (normalized_key threat_class)) ≡ true)

All-contains :
    (P : String → Type 0) (s : String) (xs : List String) → All P xs → contains s xs ≡ true → P s
All-contains P s [] h c = absurd (cc c)
All-contains P s (x ∷ xs) h c = elim (Bool-cases (str_eq s x)) [
  | inl e ↦ rw ((eq_iff s x).0 e) h.0
  | inr e ↦ All-contains P s xs h.1 (rw e at c)
]

classes-HasPlaybook : All HasPlaybook threat_classes
unfolding normalized_key Dict.get strip lstrip rstrip_by is_space upper upper_char
classes-HasPlaybook = (
  (refl, refl),
  ((refl, refl), ((refl, refl), ((refl, refl), ((refl, refl), ((refl, refl), tt))))),
)

All-classes :
    (alerts : List Rules.Alert)
    → All IsReportable alerts
    → All (λ a. HasPlaybook a.threat_class) alerts
All-classes [] h = tt
All-classes (a ∷ alerts) h = (
  All-contains HasPlaybook a.threat_class threat_classes classes-HasPlaybook h.0.threat_class,
  All-classes alerts h.1,
)

-- Every alert that the rules raise has a playbook of its own: its threat class, stripped and in upper case, is a key of
-- the map, and what the map names is one of the templates, so that neither fallback is taken.
pub evaluate_rules-HasPlaybook :
    (malicious : List String) (str_of : Value → String) (event : Dict Value) (features : Features)
    (alerts : List Rules.Alert)
    → evaluate_rules malicious str_of event features ≡ some alerts
    → All (λ a. HasPlaybook a.threat_class) alerts
evaluate_rules-HasPlaybook malicious str_of event features alerts e =
    All-classes alerts (evaluate_rules-IsReportable malicious str_of event features alerts e)
