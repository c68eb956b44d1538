-- ===== src/Stream/Detect.antt =====
-- The first three stages of `process_traffic` of inference/stream_processor_faust.py: features, rules, and the network's
-- judgement of a DNS query, which `DlAnswer` stands for. Probabilities are in hundredths.
use Prim.Native.String.{count}
use ai_cyber_threat_detector.Common.{
  ℕ, Bool, not, ◌&&◌, Option, none, some, List, [], ◌∷◌, ◌++◌, String, str_eq, if◌then◌else◌, leb,
  map, or_else,
}
use ai_cyber_threat_detector.Common.Dict
use ai_cyber_threat_detector.Common.Dict.{Dict}
use ai_cyber_threat_detector.Common.Text.{strip}
use ai_cyber_threat_detector.Detection.Event.{Value, null, text, is_text, is_falsy}
use ai_cyber_threat_detector.Detection.Features.{Features}
use ai_cyber_threat_detector.Detection.Rules.{evaluate_rules}
use ai_cyber_threat_detector.Detection.Rules

-- a detection: the network's have neither evidence nor a technique
pub record Finding : Type 0 where
  pub threat_class : String
  pub severity : String
  pub confidence : ℕ
  pub rule_id : String
  pub evidence : Dict Value
  pub mitre_tactic : Option String
  pub mitre_technique : Option String

-- what `dl_engine.predict` comes to within five seconds
pub data DlAnswer : Type 0 where
  predicted : (is_dga : Bool) (prob : ℕ) → DlAnswer
  late raised : DlAnswer

abbrev pub of_rule : Rules.Alert → Finding
of_rule a = record {
  threat_class = a.threat_class;
  severity = a.severity;
  confidence = a.confidence;
  rule_id = a.rule_id;
  evidence = a.evidence;
  mitre_tactic = some a.mitre_tactic;
  mitre_technique = some a.mitre_technique;
}

abbrev pub of_network : ℕ → Finding
of_network prob = record {
  threat_class = "DGA / DNS Tunnelling";
  severity = "high";
  confidence = prob;
  rule_id = "DL_CNN_DGA";
  evidence = [];
  mitre_tactic = none;
  mitre_technique = none;
}

unfoldable pub dl_query : (Value → String) → Option Value → String
dl_query str_of none = ""
dl_query str_of (some null) = ""
dl_query str_of (some (text raw_query)) = strip raw_query
dl_query str_of (some v) = strip (str_of v)

-- the query that the network is asked_query about, if any
unfoldable pub asked_query : (Value → String) → Dict Value → Option String
unfolding dl_query is_text
asked_query str_of event =
    let query = dl_query str_of (Dict.get event "query") in
    if is_text (Dict.get event "event_type") "dns"
      && (not (str_eq query "") && leb (count query) 253)
    then some query
    else none

unfoldable pub dl_findings : DlAnswer → List Finding
dl_findings (predicted is_dga prob) = if is_dga then of_network prob ∷ [] else []
dl_findings late = []
dl_findings raised = []

module _ (malicious : List String) (str_of : Value → String)
    (predict : Features → String → DlAnswer) where
  unfoldable pub dl_stage : Dict Value → Features → List Finding
  unfolding asked_query dl_findings
  dl_stage event features = elim (asked_query str_of event) [
    | none ↦ []
    | some query ↦ dl_findings (predict features query)
  ]

  -- an exception of the rules leaves an empty list, to which the network can still add
  unfoldable pub detections : Dict Value → Features → List Finding
  detections event features =
      map of_rule (or_else (evaluate_rules malicious str_of event features) [])
      ++ dl_stage event features

-- `str(event.get("trace_id") or event.get("uid") or ...)`
unfoldable pub event_text : (Value → String) → Option Value → String → String
event_text str_of none default = default
event_text str_of (some (text s)) default = if str_eq s "" then default else s
event_text str_of (some v) default = if is_falsy v then default else str_of v

unfoldable pub event_trace_id : (Value → String) → Dict Value → String → String
unfolding event_text
event_trace_id str_of event fresh =
    event_text str_of (Dict.get event "trace_id") (event_text str_of (Dict.get event "uid") fresh)
