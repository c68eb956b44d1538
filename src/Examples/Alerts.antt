-- ===== src/Examples/Alerts.antt =====
-- One alert through `add_alert` and `rollback_alert_seen` of inference/correlation.py.
use mathlib.Core.List.{Memᴰ}
use ai_cyber_threat_detector.Common.{
  ◌∷◌, ◌≡◌, ◌≤◌, ◌<◌, refl, true, false, Option, none, some, [], String, str_eq, if◌then◌else◌,
  arith,
}
use ai_cyber_threat_detector.Common.Dict
use ai_cyber_threat_detector.Common.Case.{lower}
use ai_cyber_threat_detector.Common.Text.{strip}
use ai_cyber_threat_detector.Redis.{View, zmember}
use ai_cyber_threat_detector.Redis.Memory.{memory}
use ai_cyber_threat_detector.Correlation.Scripts.{Call, is_dup}
use ai_cyber_threat_detector.Correlation.Keys.{IsSeparate}
use ai_cyber_threat_detector.Correlation.Rollback.{SameWindow}
use ai_cyber_threat_detector.Correlation.Alert.{
  Alert, safe_threat, safe_chars, cut, is_safe_char, sev_score, correlate_call, add_alert,
  rollback_alert_seen,
}
use ai_cyber_threat_detector.Correlation.Request.{correlate_call-IsSeparate}
use ai_cyber_threat_detector.Correlation.Report.{ParsedAlert, report}
use ai_cyber_threat_detector.Correlation.Covers.{IsCovered, IsListed, report-IsCovered}
use ai_cyber_threat_detector.Correlation.Master.{
  master, replica, check_redis_master, checks, unchecked,
}
use ai_cyber_threat_detector.Correlation.Handler.{
  Instant, handle_alert, IsHandled, handle_alert-IsHandled,
}
use ai_cyber_threat_detector.Correlation.Compensation.{rollback_alert_seen-add_alert}

abbrev nothing_seen : View
nothing_seen = record { lists = λ k. []; zsets = λ k. []; nums = λ k. none; ttls = λ k. none }

abbrev flood : Alert
flood = record {
  source_ip = " 10.0.0.5";
  threat_class = "C2 Beaconing!";
  severity = "High ";
  alert_id = "a1";
  json = "{}";
  is_replay = false;
}

abbrev ip_text : String → Option String
ip_text s = if str_eq s "10.0.0.5" then some s else none

abbrev flood_call : Call
flood_call = record {
  key_name = "{10.0.0.5}:alerts";
  dedup_name = "{10.0.0.5}:dedup:C2_Beaconing";
  alert_json = "{}";
  window = 300;
  severity_score = 75;
  alert_id = "a1";
  is_replay = false;
}

flood_called : correlate_call ip_text flood ≡ some flood_call
unfolding correlate_call safe_threat safe_chars cut is_safe_char sev_score strip lower Dict.get
flood_called = refl

correlate_call-IsSeparate_example :
    IsSeparate flood_call × (0 < flood_call.severity_score) × (flood_call.severity_score ≤ 100)
correlate_call-IsSeparate_example = correlate_call-IsSeparate ip_text flood flood_call flood_called

rollback_alert_seen-add_alert_example :
    SameWindow flood_call
      (rollback_alert_seen ip_text memory flood
        (add_alert ip_text memory true flood nothing_seen).1)
      nothing_seen
unfolding strip is_dup zmember
rollback_alert_seen-add_alert_example =
    rollback_alert_seen-add_alert ip_text flood flood_call flood_called memory nothing_seen refl
      refl refl refl (omega arith) (omega arith)

abbrev seen_before : ParsedAlert
seen_before = record {
  threat_class = some "DDoS";
  destination_ip = some "198.51.100.1";
  alert_id = some "a0";
  mitre_tactic = none;
  tactic = none;
  severity = some "Critical";
}

abbrev raising : ParsedAlert
raising = record seen_before { alert_id = some "a1"; severity = some "low" }

abbrev loads : String → Option ParsedAlert
loads raw = if str_eq raw "{0}" then some seen_before else none

report-IsCovered_example :
    let r = report loads (λ n. "?") "1" 5 5000 "10.0.0.5" raising none ("{0}" ∷ []) in
    IsCovered seen_before r.threat_classes r.affected_entities r.related_alert_ids r.severity
    × IsListed (some "a1") r.related_alert_ids
report-IsCovered_example =
    report-IsCovered loads (λ n. "?") "1" 5 5000 "10.0.0.5" raising none ("{0}" ∷ []) "{0}"
      seen_before (Memᴰ.head refl) refl

-- at 14, four seconds after a master answered; a replica has taken its place since
abbrev failing_over : Instant
failing_over = record { now = 14; now_ms = 14000; fresh_id = "1"; role = replica }

handle_alert-IsHandled_example :
    IsHandled loads
      (λ n. "?")
      ip_text
      memory
      14
      nothing_seen
      true
      (some flood_call)
      (handle_alert loads
        (λ n. "?")
        ip_text
        memory
        failing_over
        flood
        raising
        none
        (checks ((10, master) ∷ []) unchecked)
        nothing_seen)
unfolding checks check_redis_master correlate_call safe_threat safe_chars cut is_safe_char sev_score
    strip lower Dict.get
handle_alert-IsHandled_example =
    handle_alert-IsHandled loads (λ n. "?") ip_text memory ((10, master) ∷ []) failing_over flood
      raising none nothing_seen (omega arith)
