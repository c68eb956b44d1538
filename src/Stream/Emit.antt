-- ===== src/Stream/Emit.antt =====
-- What `process_traffic` of inference/stream_processor_faust.py does with one detection: the alert, the gate, the send to Kafka,
-- then the correlation in Redis, with the error paths of each.
use Prim.Native.String.{◌++◌}
use ai_cyber_threat_detector.Common.{
  Bool, Option, none, some, [], ◌∷◌, String, str_eq, if◌then◌else◌, ◌==◌,
}
use ai_cyber_threat_detector.Common.{◌++◌ as ◌⧺◌}
use ai_cyber_threat_detector.Common.Dict
use ai_cyber_threat_detector.Common.Dict.{Dict}
use ai_cyber_threat_detector.Redis.{Redis}
use ai_cyber_threat_detector.Detection.Event.{Value}
use ai_cyber_threat_detector.Correlation.Scripts.{Outcome}
use ai_cyber_threat_detector.Correlation.Alert.{Alert, add_alert, rollback_alert_seen}
use ai_cyber_threat_detector.Stream.Schema.{
  is_truthy, Json, null, number, text, object, validate_alert,
}
use ai_cyber_threat_detector.Stream.Letters.{
  Ack, acked, timed_out, failed, Incident, World, Post, send_dlq_safely,
}
use ai_cyber_threat_detector.Stream.Detect.{Finding, event_text}

-- Python and its libraries: `ip_text` is `str(ipaddress.ip_address(s))`, `none` its ValueError, `message` the text of
-- jsonschema's error, `dumps` is `json.dumps`, the rest are `str` and the check of dates.
pub record Env : Type 0 where
  pub ip_text : String → Option String
  pub is_date_time : String → Bool
  pub message : Dict Json → String
  pub dumps : Dict Json → String
  pub str_json : Json → String
  pub str_of : Value → String
  pub str_finding : Finding → String

-- when the script of a call that timed out ran, if at all: before or after what is done about the timeout
pub data Moment : Type 0 where
  never before after : Moment

-- How `add_alert` in the executor ends. An error can hide that the script ran.
pub data Reply : Type 0 where
  returned : Reply
  late : Moment → Reply
  redis_error raised : (ran : Bool) → String → Reply

-- What a detection meets on its way. `evidence` is what `enrich` leaves of the evidence, `none` if it raises;
-- `outer` is an exception outside the handlers of the single calls; the two rollbacks are those after
-- an incident that was not sent and after a timeout, which swallow their errors.
pub record Answers : Type 0 where
  pub alert_id : String
  pub timestamp : String
  pub outer : Option String
  pub evidence : Option (Dict Value)
  pub publish : Ack
  pub is_master : Bool
  pub correlate : Reply
  pub incident : Ack
  pub sent_rollback : Bool
  pub late_rollback : Bool
  pub post : Post

abbrev pub text_or_null : Option String → Json
text_or_null none = null
text_or_null (some s) = text s

module _ (env : Env) where
  unfoldable pub raw_alert : Answers → Dict Value → Finding → String → Dict Json
  unfolding event_text
  raw_alert a event det trace_id =
      ("alert_id", text a.alert_id)
      ∷ ("timestamp", text a.timestamp)
      ∷ ("source_ip", text (event_text env.str_of (Dict.get event "id.orig_h") "127.0.0.1"))
      ∷ ("destination_ip", text (event_text env.str_of (Dict.get event "id.resp_h") "127.0.0.1"))
      ∷ ("threat_class", text det.threat_class)
      ∷ ("severity", text det.severity)
      ∷ ("confidence_score", number (if det.confidence == 0 then 90 else det.confidence))
      ∷ ("evidence", object det.evidence)
      ∷ ("event_type", text (event_text env.str_of (Dict.get event "event_type") "unknown"))
      ∷ ("schema_version", text "1.0")
      ∷ ("model_name", text (if str_eq det.rule_id "" then "Unknown" else det.rule_id))
      ∷ ("model_version", text "1.0")
      ∷ ("mitre_tactic", text_or_null det.mitre_tactic)
      ∷ ("mitre_technique", text_or_null det.mitre_technique)
      ∷ ("trace_id", text trace_id)
      ∷ []

  abbrev pub alert_of : Answers → Dict Value → Finding → String → Dict Json
  alert_of a event det trace_id = elim a.evidence [
    | none ↦ raw_alert a event det trace_id
    | some evidence ↦ Dict.put (raw_alert a event det trace_id) "evidence" (object evidence)
  ]

  -- `str(alert.get(k, default))`
  unfoldable pub text_at : Dict Json → String → String → String
  text_at alert k default = elim (Dict.get alert k) [
    | none ↦ default
    | some (text s) ↦ s
    | some v ↦ env.str_json v
  ]

  -- the alert as the correlator reads it
  unfoldable pub read_alert : Dict Json → Alert
  unfolding text_at is_truthy
  read_alert alert = record {
    source_ip = text_at alert "source_ip" "127.0.0.1";
    threat_class = text_at alert "threat_class" "unknown";
    severity = text_at alert "severity" "low";
    alert_id = text_at alert "alert_id" "";
    json = env.dumps alert;
    is_replay = is_truthy (Dict.get alert "is_replay");
  }

  module _ (r : Redis) where
    abbrev pub Worlds : Type 0
    Worlds = World (Redis.State r)

    unfoldable pub correlated : Answers → Dict Json → Worlds → Option Outcome × Worlds
    correlated a alert w =
        let (outcome, s) = add_alert env.ip_text r a.is_master (read_alert alert) w.correlation in
        (outcome, record w { correlation = s })

    unfoldable pub rolled_back : Bool → Dict Json → Worlds → Worlds
    rolled_back ran alert w =
        if ran
        then record w {
          correlation = rollback_alert_seen env.ip_text r (read_alert alert) w.correlation;
        }
        else w

    -- the handler of `asyncio.TimeoutError` around the correlation
    unfoldable pub on_timeout : Answers → Dict Value → Dict Json → Worlds → Worlds
    on_timeout a event alert w =
        send_dlq_safely a.post event alert "Timeout during correlation or incident send"
          (rolled_back a.late_rollback alert w)

    unfoldable pub report_incident : Answers → Dict Value → Dict Json → Outcome → Worlds → Worlds
    report_incident a event alert outcome w =
        let incident : Incident = record { alert = alert; outcome = outcome } in
        let sent = record w { incidents = w.incidents ⧺ incident ∷ [] } in
        elim a.incident [
          | acked ↦ sent
          | timed_out arrived ↦
              on_timeout a event alert
                (rolled_back a.sent_rollback alert (if arrived then sent else w))
          | failed e ↦ send_dlq_safely a.post event alert e (rolled_back a.sent_rollback alert w)
        ]

    -- `add_alert` gives an incident if the script's flag is 1
    unfoldable pub after_correlation :
        Answers → Dict Value → Dict Json → Option Outcome → Worlds → Worlds
    after_correlation a event alert none w = w
    after_correlation a event alert (some outcome) w =
        if outcome.incident == 1 then report_incident a event alert outcome w else w

    unfoldable pub correlate_alert : Answers → Dict Value → Dict Json → Worlds → Worlds
    correlate_alert a event alert w =
        let (outcome, w') = correlated a alert w in
        elim a.correlate [
          | returned ↦ after_correlation a event alert outcome w'
          | late never ↦ on_timeout a event alert w
          | late before ↦ on_timeout a event alert w'
          | late after ↦ (correlated a alert (on_timeout a event alert w)).1
          | redis_error ran e ↦
              send_dlq_safely a.post event alert ("RedisUnavailable: " ++ e) (if ran then w' else w)
          | raised ran e ↦ send_dlq_safely a.post event alert e (if ran then w' else w)
        ]

    -- a publish that timed out may have arrived all the same
    unfoldable pub publish_alert : Answers → Dict Value → Dict Json → Worlds → Worlds
    publish_alert a event alert w =
        let published = record w { alerts = w.alerts ⧺ alert ∷ [] } in
        elim a.publish [
          | acked ↦ correlate_alert a event alert published
          | timed_out arrived ↦
              send_dlq_safely a.post event alert "Timeout during alert Kafka publish"
                (if arrived then published else w)
          | failed e ↦ send_dlq_safely a.post event alert ("KafkaPublishError: " ++ e) w
        ]

    unfoldable pub process_detection : Answers → Dict Value → String → Finding → Worlds → Worlds
    process_detection a event trace_id det w =
        let alert = alert_of a event det trace_id in
        elim a.outer [
          | some e ↦
              send_dlq_safely a.post event (("detection", text (env.str_finding det)) ∷ [])
                ("DetectionLoopError: " ++ e) w
          | none ↦
              if validate_alert env.ip_text env.is_date_time alert
              then publish_alert a event alert w
              else send_dlq_safely a.post event alert
                  ("SchemaValidationError: " ++ env.message alert) w
        ]
