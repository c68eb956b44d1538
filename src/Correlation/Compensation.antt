-- ===== src/Correlation/Compensation.antt =====
-- `rollback_alert_seen` of inference/correlation.py as the compensating transaction of `add_alert`.
use ai_cyber_threat_detector.Common.{
  ◌<◌, ◌≡◌, true, false, Option, some, String, str_eq, length, ltb, Bool-cases, Option-cases, inl,
  inr,
}
use Prim.Native.String.{count}
use ai_cyber_threat_detector.Common.Text.{strip}
use ai_cyber_threat_detector.Redis.{Redis}
use ai_cyber_threat_detector.Correlation.Scripts.{Call, seen_key, max_seen, is_dup}
use ai_cyber_threat_detector.Correlation.Rollback.{SameWindow, rollback-correlate}
use ai_cyber_threat_detector.Correlation.Alert.{
  Alert, correlate_call, rollback_call, add_alert, rollback_alert_seen,
}
use ai_cyber_threat_detector.Correlation.Request.{correlate_call-IsSeparate}

module _ (ip_text : String → Option String) (alert : Alert) (c : Call)
    (call : correlate_call ip_text alert ≡ some c) where
  -- both scripts are called alike, if stripping the id changes nothing
  same_call : strip alert.alert_id ≡ alert.alert_id → rollback_call ip_text alert ≡ some c
  unfolding correlate_call rollback_call
  same_call plain = elim (Option-cases (ip_text (strip alert.source_ip))) [
    | inl e ↦ absurd (cc (rw (e, correlate_call) at call))
    | inr (ip, e) ↦ elim (Bool-cases (ltb 45 (count ip))) [
      | inl f ↦ absurd (cc (rw f at (rw (e, correlate_call) at call)))
      | inr f ↦ rw (e, rollback_call) (rw plain (rw f at (rw (e, correlate_call) at call)))
    ]
  ]

  module _ (r : Redis) (s : Redis.State r) where
    -- If the incident of an alert cannot be sent, `rollback_alert_seen` takes the alert back: after `add_alert`, on a
    -- master, with an address that is accepted, an id that is not empty, has no spaces around it and had
    -- not been seen, a dump that is not empty, and room in the seen set and in the list, the list, the
    -- seen set and the count are those from before.
    pub rollback_alert_seen-add_alert :
        strip alert.alert_id ≡ alert.alert_id
        → str_eq c.alert_id "" ≡ false
        → str_eq c.alert_json "" ≡ false
        → is_dup r c s ≡ false
        → length ((Redis.view r s).zsets (seen_key c.key_name)) < max_seen
        → length ((Redis.view r s).lists c.key_name) < 100
        → SameWindow c
            (Redis.view r
              (rollback_alert_seen ip_text r alert (add_alert ip_text r true alert s).1))
            (Redis.view r s)
    unfolding add_alert rollback_alert_seen
    rollback_alert_seen-add_alert plain id json fresh room short =
        let (apart, pos, bound) = correlate_call-IsSeparate ip_text alert c call in
        rw (same_call plain, rollback_alert_seen)
          (rw (call, add_alert) ((rollback-correlate r c s apart pos id json fresh room short).0))
