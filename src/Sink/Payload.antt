-- ===== src/Sink/Payload.antt =====
-- AlertPayload of api/schemas.py: the whitelist that a message passes before the database sees it.
use ai_cyber_threat_detector.Common.{
  ◌>>=◌, ℕ, Bool, false, Option, none, some, String, str_eq, ◌==◌, not,
}
use ai_cyber_threat_detector.Common.Dict
use ai_cyber_threat_detector.Common.Dict.{Dict}

-- A decoded JSON value, as far as the sink looks at it. `nested` is a dict or a list, by its dump;
-- `empty` says that it has no entries. Numbers are by their numerator in a fixed scale.
pub data Field : Type 0 where
  null : Field
  flag : Bool → Field
  number : ℕ → Field
  text : String → Field
  nested : (empty : Bool) → String → Field

-- Python's truth value
unfoldable pub truthy : Option Field → Bool
truthy none = false
truthy (some null) = false
truthy (some (flag b)) = b
truthy (some (number n)) = not (n == 0)
truthy (some (text s)) = not (str_eq s "")
truthy (some (nested empty s)) = not empty

-- the dump of an evidence that is a dict or a list, as both the loop and `process_batch` write it
unfoldable pub dump_evidence : Dict Field → Dict Field
dump_evidence item = elim (Dict.get item "evidence") [
  | some (nested empty dump) ↦ Dict.put item "evidence" (text dump)
  | _ ↦ item
]

pub record AlertPayload : Type 0 where
  pub alert_id : String
  pub event_type : String
  pub timestamp : String
  pub threat_class : String
  pub severity : String
  pub confidence_score : ℕ
  pub source_ip : String
  pub destination_ip : Option String
  pub evidence : Option String
  pub trace_id : Option String
  pub flow_id : Option String
  pub span_id : Option String
  pub mitre_tactic : Option String
  pub mitre_technique : Option String
  pub model_name : Option String
  pub model_version : Option String
  pub schema_version : Option String

-- `str`: required, and a text
unfoldable pub required : Dict Field → String → Option String
required item k = elim (Dict.get item k) [ some (text s) ↦ some s | _ ↦ none ]

-- `Optional[str] = None`: absent, null or a text
unfoldable pub optional : Dict Field → String → Option (Option String)
optional item k = elim (Dict.get item k) [
  | none ↦ some none
  | some null ↦ some none
  | some (text s) ↦ some (some s)
  | _ ↦ none
]

-- `AlertPayload(**raw_item)`, where `none` is a ValidationError. Which values pass for a float is
-- pydantic's: a parameter.
unfoldable pub validate : (Field → Option ℕ) → Dict Field → Option AlertPayload
validate as_float item = do
  alert_id ← required item "alert_id"
  event_type ← required item "event_type"
  timestamp ← required item "timestamp"
  threat_class ← required item "threat_class"
  severity ← required item "severity"
  confidence ← Dict.get item "confidence_score"
  confidence_score ← as_float confidence
  source_ip ← required item "source_ip"
  destination_ip ← optional item "destination_ip"
  evidence ← optional item "evidence"
  trace_id ← optional item "trace_id"
  flow_id ← optional item "flow_id"
  span_id ← optional item "span_id"
  mitre_tactic ← optional item "mitre_tactic"
  mitre_technique ← optional item "mitre_technique"
  model_name ← optional item "model_name"
  model_version ← optional item "model_version"
  schema_version ← optional item "schema_version"
  some (record {
    alert_id = alert_id;
    event_type = event_type;
    timestamp = timestamp;
    threat_class = threat_class;
    severity = severity;
    confidence_score = confidence_score;
    source_ip = source_ip;
    destination_ip = destination_ip;
    evidence = evidence;
    trace_id = trace_id;
    flow_id = flow_id;
    span_id = span_id;
    mitre_tactic = mitre_tactic;
    mitre_technique = mitre_technique;
    model_name = model_name;
    model_version = model_version;
    schema_version = schema_version;
  })
