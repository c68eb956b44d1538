-- ===== src/Stream/Schema.antt =====
-- ALERT_SCHEMA and `validate_alert` of inference/schemas.py. The library jsonschema is read as its documentation says
-- of the keywords that the schema uses. Python's ipaddress and the check of dates are parameters.
use ai_cyber_threat_detector.Common.{
  not, str_eq, is_empty, ◌==◌, ℕ, Bool, true, false, ◌&&◌, Option, none, some, List, [], ◌∷◌,
  String, is_some, contains,
}
use ai_cyber_threat_detector.Common.Dict
use ai_cyber_threat_detector.Common.Dict.{Dict}
use ai_cyber_threat_detector.Detection.Event.{Value}

-- a value of an alert: numbers are in hundredths
pub data Json : Type 0 where
  null : Json
  flag : Bool → Json
  number : ℕ → Json
  text : String → Json
  object : Dict Value → Json

-- Python's truth value of `alert.get(k)`
unfoldable pub is_truthy : Option Json → Bool
is_truthy none = false
is_truthy (some null) = false
is_truthy (some (flag b)) = b
is_truthy (some (number n)) = not (n == 0)
is_truthy (some (text s)) = not (str_eq s "")
is_truthy (some (object d)) = not (is_empty d)

-- the shapes that the schema asks for
pub data Shape : Type 0 where
  string string_or_null numeric boolean object_or_null date_time ip_address ip_or_null : Shape
  one_of : List String → Shape

abbrev pub properties : Dict Shape
properties =
    ("timestamp", date_time)
    ∷ ("alert_id", string)
    ∷ ("flow_id", string_or_null)
    ∷ ("trace_id", string_or_null)
    ∷ ("span_id", string_or_null)
    ∷ ("event_type", string)
    ∷ ("threat_class", string)
    ∷ ("confidence_score", numeric)
    ∷ ("severity", one_of ("low" ∷ "medium" ∷ "high" ∷ "critical" ∷ []))
    ∷ ("mitre_tactic", string_or_null)
    ∷ ("mitre_technique", string_or_null)
    ∷ ("source_ip", ip_address)
    ∷ ("destination_ip", ip_or_null)
    ∷ ("evidence", object_or_null)
    ∷ ("model_name", string)
    ∷ ("model_version", string)
    ∷ ("schema_version", one_of ("1.0" ∷ []))
    ∷ ("is_replay", boolean)
    ∷ []

abbrev pub required : List String
required =
    "timestamp" ∷ "alert_id" ∷ "event_type" ∷ "threat_class" ∷ "confidence_score" ∷ "severity"
    ∷ "source_ip" ∷ "schema_version" ∷ []

unfoldable pub has_all : List String → Dict Json → Bool
has_all [] alert = true
has_all (k ∷ ks) alert = is_some (Dict.get alert k) && has_all ks alert

-- `ip_text` is `str(ipaddress.ip_address(s))`, `none` its ValueError
unfoldable pub check_ip_address : (ip_text : String → Option String) → String → Bool
check_ip_address ip_text value = is_some (ip_text value)

module _ (ip_text : String → Option String) (is_date_time : String → Bool) where
  unfoldable pub conforms : Shape → Json → Bool
  unfolding check_ip_address
  conforms string (text s) = true
  conforms string_or_null (text s) = true
  conforms string_or_null null = true
  conforms numeric (number n) = true
  conforms boolean (flag b) = true
  conforms object_or_null (object d) = true
  conforms object_or_null null = true
  conforms date_time (text s) = is_date_time s
  conforms ip_address (text s) = check_ip_address ip_text s
  conforms ip_or_null (text s) = check_ip_address ip_text s
  conforms ip_or_null null = true
  conforms (one_of l) (text s) = contains s l
  conforms _ _ = false

  -- a key that the schema does not name is refused
  unfoldable pub entry_conforms : String → Json → Bool
  entry_conforms k v = elim (Dict.get properties k) [ none ↦ false | some shape ↦ conforms shape v ]

  unfoldable pub all_conform : Dict Json → Bool
  all_conform [] = true
  all_conform ((k, v) ∷ alert) = entry_conforms k v && all_conform alert

  unfoldable pub validate_alert : Dict Json → Bool
  validate_alert alert = has_all required alert && all_conform alert
