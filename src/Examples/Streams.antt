-- ===== src/Examples/Streams.antt =====
-- Detections through the handler of inference/stream_processor_faust.py.
use Prim.Native.String.{count}
use ai_cyber_threat_detector.Common.{
  ◌≡◌, ◌≤◌, refl, ◌⊎◌, true, false, none, some, [], ◌∷◌, String, str_eq, if◌then◌else◌, arith,
  Bool-cases, eq_iff, inl, inr,
}
use ai_cyber_threat_detector.Common.Dict
use ai_cyber_threat_detector.Common.Dict.{Dict}
use ai_cyber_threat_detector.Common.Int.{pos}
use ai_cyber_threat_detector.Common.Case.{lower}
use ai_cyber_threat_detector.Common.Text.{strip}
use ai_cyber_threat_detector.Redis.{
  View, zmember, view_incr, view_ltrim, view_lpush, view_zadd, zinsert, zwithout, view_expire,
  view_set,
}
use ai_cyber_threat_detector.Redis.Memory.{memory}
use ai_cyber_threat_detector.Correlation.Scripts.{
  Call, Outcome, is_dup, correlate, count_alert, remember, push_alert, bump_count, note_max,
  is_incident, arm, cap_seen,
}
use ai_cyber_threat_detector.Correlation.Rollback.{SameWindow}
use ai_cyber_threat_detector.Correlation.Alert.{
  safe_threat, safe_chars, cut, is_safe_char, sev_score, correlate_call, add_alert,
}
use ai_cyber_threat_detector.Detection.Event.{Value, int, text}
use ai_cyber_threat_detector.Stream.Schema.{
  is_truthy, Json, validate_alert, has_all, all_conform, entry_conforms, conforms, check_ip_address,
}
use ai_cyber_threat_detector.Stream.Schema
use ai_cyber_threat_detector.Stream.Letters.{Ack, acked, timed_out, failed, Post, is_written}
use ai_cyber_threat_detector.Stream.Detect.{Finding, late, event_text}
use ai_cyber_threat_detector.Stream.Emit.{
  Env, Answers, Worlds, returned, raw_alert, alert_of, read_alert, text_at, correlate_alert,
  process_detection,
}
use ai_cyber_threat_detector.Stream.Process.{Turn, process_traffic}
use ai_cyber_threat_detector.Stream.Protocol.{Reach, IsSound}
use ai_cyber_threat_detector.Stream.Refines.{process_traffic-Reach, process_traffic-IsSound}
use ai_cyber_threat_detector.Stream.Settled.{IsParked, IsDone, process_detection-settles}
use ai_cyber_threat_detector.Stream.TwoPhase.{correlation-process_detection, compensated}
use ai_cyber_threat_detector.Stream.Gate.{IsCalled, validate_alert-correlate_call}

abbrev env : Env
env = record {
  ip_text = λ s. if str_eq s "10.0.0.5" then some s else none;
  is_date_time = λ s. str_eq s "now";
  message = λ alert. "refused";
  dumps = λ alert. "{}";
  str_json = λ v. "?";
  str_of = λ v. "?";
  str_finding = λ f. "?";
}

abbrev flood : Dict Value
flood =
    ("event_type", text "conn")
    ∷ ("orig_pkts", int (pos 20000))
    ∷ ("id.orig_h", text "10.0.0.5")
    ∷ ("id.resp_h", text "10.0.0.5")
    ∷ []

abbrev found : Finding
found = record {
  threat_class = "DDoS";
  severity = "critical";
  confidence = 95;
  rule_id = "RULE_DDOS_VOLUMETRIC";
  evidence = [];
  mitre_tactic = some "Impact";
  mitre_technique = some "T1498";
}

abbrev stored : Post
stored = record {
  timestamp = "now";
  kafka = timed_out false;
  disk = record {
    makes_dir = true;
    opens_lock = true;
    locks = true;
    opens_file = true;
    writes = true;
  };
}

-- the broker refuses the incident
abbrev refusals : Ack → Answers
refusals publish = record {
  alert_id = "a2";
  timestamp = "now";
  outer = none;
  evidence = none;
  publish = publish;
  is_master = true;
  correlate = returned;
  incident = failed "broker";
  sent_rollback = true;
  late_rollback = true;
  post = stored;
}

-- an alert of the same address has been counted
abbrev counted_once : View
counted_once = record {
  lists = λ k. if str_eq k "{10.0.0.5}:alerts" then "{1}" ∷ [] else [];
  zsets = λ k. [];
  nums = λ k. if str_eq k "{10.0.0.5}:alerts:cnt" then some 1 else none;
  ttls = λ k. none;
}

abbrev start : Worlds env memory
start = record {
  alerts = [];
  incidents = [];
  dead_letters = [];
  local_letters = [];
  correlation = counted_once;
}

abbrev flood_turn : Turn
flood_turn = record {
  event = flood;
  predict = λ features query. late;
  fresh_id = "trc";
  answers = λ n. refusals acked;
}

process_traffic-Reach_example :
    Reach env memory start (process_traffic env [] (λ s. 0) memory (flood_turn ∷ []) start)
process_traffic-Reach_example = process_traffic-Reach env [] (λ s. 0) memory (flood_turn ∷ []) start

process_traffic-IsSound_example :
    IsSound env memory (process_traffic env [] (λ s. 0) memory (flood_turn ∷ []) start)
process_traffic-IsSound_example =
    process_traffic-IsSound env [] (λ s. 0) memory (flood_turn ∷ []) start
      (record { valid = tt; reported = tt; replays = tt; local_replays = tt })

process_detection-settles_example :
    IsParked flood start (process_detection env memory (refusals acked) flood "trc" found start)
    ⊎ IsDone env memory true
        (alert_of env (refusals acked) flood found "trc")
        start
        (process_detection env memory (refusals acked) flood "trc" found start)
unfolding is_written
process_detection-settles_example =
    process_detection-settles env memory (refusals acked) flood "trc" found start refl

correlation-process_detection_example :
    ((process_detection env memory (refusals (timed_out true)) flood "trc" found start).correlation
      ≡ counted_once)
    × ((process_detection env memory (refusals (timed_out true)) flood "trc" found start).incidents
        ≡ [])
correlation-process_detection_example =
    correlation-process_detection env memory (refusals (timed_out true)) flood "trc" found start
      refl

abbrev alert : Dict Json
alert =
    ("alert_id", Schema.text "a2")
    ∷ ("source_ip", Schema.text "10.0.0.5")
    ∷ ("threat_class", Schema.text "DDoS")
    ∷ ("severity", Schema.text "critical")
    ∷ []

abbrev alert_call : Call
alert_call = record {
  key_name = "{10.0.0.5}:alerts";
  dedup_name = "{10.0.0.5}:dedup:DDoS";
  alert_json = "{}";
  window = 300;
  severity_score = 100;
  alert_id = "a2";
  is_replay = false;
}

-- the first alert and this one: an incident
abbrev two_alerts : Outcome
two_alerts = record { total_count = 2; incident = 1; alerts_snapshot = "{}" ∷ "{1}" ∷ [] }

two_alerts_counted :
    (add_alert env.ip_text memory true (read_alert env alert) counted_once).0 ≡ some two_alerts
unfolding add_alert correlate correlate_call safe_threat safe_chars cut is_safe_char sev_score strip
    lower Dict.get read_alert text_at is_truthy count_alert is_dup zmember remember push_alert
    bump_count note_max is_incident arm cap_seen view_incr view_ltrim view_lpush view_zadd zinsert
    zwithout view_expire view_set
two_alerts_counted = refl

compensated_example :
    SameWindow alert_call
      (correlate_alert env memory (refusals acked) flood alert start).correlation
      counted_once
unfolding correlate_call safe_threat safe_chars cut is_safe_char sev_score strip lower Dict.get
    read_alert text_at is_truthy is_dup zmember
compensated_example =
    compensated env memory (refusals acked) flood alert start alert_call two_alerts "broker" refl
      refl refl refl two_alerts_counted refl refl refl refl refl refl (omega arith) (omega arith)

only_address : (s t : String) → env.ip_text s ≡ some t → (s ≡ "10.0.0.5") × (t ≡ s)
only_address s t h = elim (Bool-cases (str_eq s "10.0.0.5")) [
  | inl e ↦ ((eq_iff s "10.0.0.5").0 e, cc (rw e at h))
  | inr e ↦ absurd (cc (rw e at h))
]

address_short : (s t : String) → env.ip_text s ≡ some t → count t ≤ 45
address_short s t h = rw ((only_address s t h).1, (only_address s t h).0) (omega arith)

abbrev flood_alert : Dict Json
flood_alert = alert_of env (refusals acked) flood found "trc"

source_plain : (s : String) → Dict.get flood_alert "source_ip" ≡ some (Schema.text s) → strip s ≡ s
unfolding strip raw_alert event_text Dict.get
source_plain s h = let same : s ≡ "10.0.0.5" = cc h in rw same refl

validate_alert-correlate_call_example : IsCalled env flood_alert
unfolding validate_alert has_all all_conform entry_conforms conforms check_ip_address raw_alert
    event_text Dict.get
validate_alert-correlate_call_example =
    validate_alert-correlate_call env flood_alert refl source_plain
      (λ s t at h. address_short s t h)
