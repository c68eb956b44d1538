-- ===== src/DataAccess/Incidents.antt =====
-- `get_incidents` of shared/data_access.py. Sets are lists without repetition, in the order of insertion.
use Prim.Native.Char.{code}
use Prim.Native.String.{◌++◌}
use ai_cyber_threat_detector.Common.{
  ℕ, ◌+◌, ◌-◌, ◌*◌, min, Option, none, some, List, [], ◌∷◌, String, str_eq, if◌then◌else◌, ltb,
  ◌==◌, length, or_else, is_empty, map,
}
use ai_cyber_threat_detector.Common.{◌++◌ as ◌⧺◌}
use ai_cyber_threat_detector.Common.Dict
use ai_cyber_threat_detector.Common.Dict.{Dict}
use ai_cyber_threat_detector.Common.Case.{lower}
use ai_cyber_threat_detector.Correlation.Alert.{sev_weights}
use ai_cyber_threat_detector.Correlation.Report.{include}
use ai_cyber_threat_detector.DataAccess.Polling.{Alert}

pub record Group : Type 0 where
  pub created_timestamp : String
  pub severity : String
  pub threat_classes : List String
  pub affected_entities : List String
  pub related_alert_ids : List String
  pub max_sev_score : ℕ
  pub alert_count : ℕ

pub record Incident : Type 0 where
  pub incident_id : String
  pub created_timestamp : String
  pub severity : String
  pub risk_score : ℕ
  pub threat_classes : List String
  pub affected_entities : List String
  pub related_alert_ids : List String
  pub evidence_summary : String
  pub status : String
  pub mitre_tactics : List String
  pub mitre_techniques : List String

-- a text, or a default for one that is missing or empty
unfoldable pub or_default : Option String → String → String
or_default none d = d
or_default (some s) d = if str_eq s "" then d else s

abbrev pub source_of : Alert → String
source_of a = or_default a.source_ip "127.0.0.1"

-- src.replace('.', '-')
unfoldable pub dashed : String → String
dashed String.[] = ""
dashed (String.◌∷◌ c s) = String.◌∷◌ (if code c == 46 then "-" else c) (dashed s)

unfoldable pub severity_score : String → ℕ
severity_score severity = or_else (Dict.get sev_weights severity) 25

-- an empty destination stands in the set as well, until the end
unfoldable pub new_group : (now : String) → Alert → Group
new_group now a =
    let src = source_of a in
    let destination = or_else a.destination_ip "" in
    record {
      created_timestamp = or_else a.timestamp now;
      severity = or_else a.severity "low";
      threat_classes = [];
      affected_entities = if str_eq src destination then src ∷ [] else src ∷ destination ∷ [];
      related_alert_ids = [];
      max_sev_score = 0;
      alert_count = 0;
    }

unfoldable pub append_id : Option String → List String → List String
append_id none ids = ids
append_id (some id) ids = if str_eq id "" then ids else ids ⧺ id ∷ []

unfoldable pub add_to_group : Alert → Group → Group
unfolding severity_score include append_id
add_to_group a inc =
    let sev = lower (or_else a.severity "low") in
    let higher = ltb inc.max_sev_score (severity_score sev) in
    record {
      created_timestamp = inc.created_timestamp;
      severity = if higher then sev else inc.severity;
      threat_classes = include a.threat_class inc.threat_classes;
      affected_entities = include a.destination_ip inc.affected_entities;
      related_alert_ids = append_id a.alert_id inc.related_alert_ids;
      max_sev_score = if higher then severity_score sev else inc.max_sev_score;
      alert_count = inc.alert_count + 1;
    }

-- the groups by source address, in the order of their first alerts
unfoldable pub incidents_by_src : (now : String) → List Alert → Dict Group → Dict Group
unfolding or_default new_group add_to_group
incidents_by_src now [] groups = groups
incidents_by_src now (a ∷ alerts) groups =
    let inc = or_else (Dict.get groups (source_of a)) (new_group now a) in
    incidents_by_src now alerts (Dict.put groups (source_of a) (add_to_group a inc))

unfoldable pub risk_of : Group → ℕ
risk_of inc = min 100 (inc.max_sev_score + min 20 ((inc.alert_count - 1) * 5))

-- the entities without the empty text
unfoldable pub named : List String → List String
named [] = []
named (e ∷ l) = let rest = named l in if str_eq e "" then rest else e ∷ rest

module _ (str_int : ℕ → String) where
  unfoldable pub format_incident : String × Group → Incident
  unfolding risk_of named dashed
  format_incident (src, inc) =
      let threats =
        if is_empty inc.threat_classes then "Unclassified Threat" ∷ [] else inc.threat_classes in
      let entities = named inc.affected_entities in
      record {
        incident_id = "INC-" ++ dashed src;
        created_timestamp = inc.created_timestamp;
        severity = inc.severity;
        risk_score = risk_of inc;
        threat_classes = threats;
        affected_entities = if is_empty entities then src ∷ [] else entities;
        related_alert_ids = inc.related_alert_ids;
        evidence_summary =
            "Aggregated "
            ++ (str_int inc.alert_count
                ++ (" alert(s) across "
                    ++ (str_int (length threats) ++ (" threat class(es) involving " ++ src))));
        status = "active";
        mitre_tactics = "Command and Control" ∷ "Initial Access" ∷ [];
        mitre_techniques = "T1071" ∷ "T1132" ∷ [];
      }

  unfoldable pub get_incidents : (now : String) → List Alert → List Incident
  unfolding format_incident
  get_incidents now alerts = map format_incident (incidents_by_src now alerts [])
