-- ===== src/Correlation/Report.antt =====
-- The incident that `add_alert` of inference/correlation.py builds from the script's snapshot. Python's sets are lists without
-- repetition here, in the order of insertion, which Python leaves open.
use Prim.Native.String.{◌++◌}
use ai_cyber_threat_detector.Common.{
  ℕ, Option, none, some, List, [], ◌∷◌, String, str_eq, if◌then◌else◌, leb, contains, length,
  or_else, map, is_empty,
}
use ai_cyber_threat_detector.Common.{◌++◌ as ◌⧺◌}
use ai_cyber_threat_detector.Common.Dict
use ai_cyber_threat_detector.Common.Case.{lower}
use ai_cyber_threat_detector.Correlation.Alert.{sev_weights}
use ai_cyber_threat_detector.Risk.{calculate_risk_score}

-- What the report reads of an alert: the gate lets only texts through, and `none` is a missing key or null.
pub record ParsedAlert : Type 0 where
  pub threat_class : Option String
  pub destination_ip : Option String
  pub alert_id : Option String
  pub mitre_tactic : Option String
  pub tactic : Option String
  pub severity : Option String

unfoldable pub sev_weight : String → ℕ
sev_weight severity = or_else (Dict.get sev_weights severity) 25

-- a text that is there and not empty is added, once
unfoldable pub include : Option String → List String → List String
include none l = l
include (some s) l = if str_eq s "" then l else if contains s l then l else l ⧺ s ∷ []

-- a or b
unfoldable pub or_text : Option String → Option String → Option String
or_text none b = b
or_text (some a) b = if str_eq a "" then b else some a

-- the sets and lists that the loop over the snapshot fills
pub record Gathered : Type 0 where
  pub threat_classes : List String
  pub affected_entities : List String
  pub related_alert_ids : List String
  pub tactics : List String
  pub parsed_alerts : List ParsedAlert
  pub max_sev : String

abbrev pub severity_of : ParsedAlert → String
severity_of a = lower (or_else a.severity "low")

-- a severity at least as high replaces the highest one
unfoldable pub raise_severity : String → String → String
unfolding sev_weight
raise_severity a_sev max_sev =
    if leb (sev_weight (lower max_sev)) (sev_weight a_sev) then a_sev else max_sev

unfoldable pub gather_entry : ParsedAlert → Gathered → Gathered
unfolding include or_text raise_severity
gather_entry a g = record {
  threat_classes = include a.threat_class g.threat_classes;
  affected_entities = include a.destination_ip g.affected_entities;
  related_alert_ids = include a.alert_id g.related_alert_ids;
  tactics = include (or_text a.mitre_tactic a.tactic) g.tactics;
  parsed_alerts = g.parsed_alerts ⧺ a ∷ [];
  max_sev = raise_severity (severity_of a) g.max_sev;
}

pub record Report : Type 0 where
  pub incident_id : String
  pub source_ip : String
  pub affected_entities : List String
  pub threat_classes : List String
  pub tactics : List String
  pub highest_risk : ℕ
  pub severity : String
  pub risk_score : ℕ
  pub created_timestamp : ℕ
  pub timestamp : ℕ
  pub status : String
  pub evidence_summary : String
  pub related_alert_ids : List String
  pub trace_id : Option String

-- ', '.join(l)
unfoldable pub joined : List String → String
joined [] = ""
joined (s ∷ []) = s
joined (s ∷ t ∷ l) = s ++ (", " ++ joined (t ∷ l))

-- `loads` is `json.loads`, none for what is no JSON or no dict
module _ (loads : String → Option ParsedAlert) (str_int : ℕ → String) where
  unfoldable pub gather : List String → Gathered → Gathered
  unfolding gather_entry
  gather [] g = g
  gather (raw ∷ snapshot) g =
      gather snapshot (elim (loads raw) [ none ↦ g | some a ↦ gather_entry a g ])

  unfoldable pub gathered : (src_ip : String) → ParsedAlert → List String → Gathered
  gathered src_ip alert snapshot = gather snapshot (record {
    threat_classes = [];
    affected_entities = src_ip ∷ [];
    related_alert_ids = [];
    tactics = [];
    parsed_alerts = [];
    max_sev = or_else alert.severity "high";
  })

  unfoldable pub summary : List String → List String → String → String
  unfolding joined
  summary threats ids src_ip =
      "Correlated "
      ++ (str_int (length threats)
          ++ (" threat vector(s) ("
              ++ (joined threats
                  ++ (") across "
                      ++ (str_int (length ids) ++ (" alert(s) involving " ++ src_ip))))))

  -- `fresh_id` and `now` (in milliseconds, and in seconds) are of the moment
  unfoldable pub report :
      (fresh_id : String) (now now_ms : ℕ) (src_ip : String)
      → ParsedAlert
      → (trace_id : Option String) → List String
      → Report
  unfolding include
  report fresh_id now now_ms src_ip alert trace_id snapshot =
      let g = gathered src_ip alert snapshot in
      let parsed = if is_empty g.parsed_alerts then alert ∷ [] else g.parsed_alerts in
      let threats =
        if is_empty g.threat_classes
        then or_else alert.threat_class "unknown" ∷ []
        else g.threat_classes in
      let ids = include alert.alert_id g.related_alert_ids in
      let risk = calculate_risk_score (map (λ a. or_else a.severity "low") parsed) in
      record {
        incident_id = "INC-" ++ fresh_id;
        source_ip = src_ip;
        affected_entities = g.affected_entities;
        threat_classes = threats;
        tactics = g.tactics;
        highest_risk = risk;
        severity = g.max_sev;
        risk_score = risk;
        created_timestamp = now;
        timestamp = now_ms;
        status = "active";
        evidence_summary = summary threats ids src_ip;
        related_alert_ids = ids;
        trace_id = trace_id;
      }
