-- ===== src/Stream/TwoPhase.antt =====
-- The two phases of inference/stream_processor_faust.py: nothing is counted before it is published, and what was counted for an
-- incident that could not be sent is taken back.
use ai_cyber_threat_detector.Common.{
  ◌≡◌, refl, ◌<◌, true, false, some, String, str_eq, length, Bool-cases, Option-cases, inl, inr,
  arith, ==_iff,
}
use ai_cyber_threat_detector.Common.Dict.{Dict}
use ai_cyber_threat_detector.Common.Text.{strip}
use ai_cyber_threat_detector.Redis.{Redis}
use ai_cyber_threat_detector.Correlation.Scripts.{Call, Outcome, seen_key, max_seen, is_dup}
use ai_cyber_threat_detector.Correlation.Rollback.{SameWindow}
use ai_cyber_threat_detector.Correlation.Alert.{add_alert, correlate_call, rollback_alert_seen}
use ai_cyber_threat_detector.Correlation.Compensation.{rollback_alert_seen-add_alert}
use ai_cyber_threat_detector.Detection.Event.{Value}
use ai_cyber_threat_detector.Stream.Schema.{Json, validate_alert}
use ai_cyber_threat_detector.Stream.Letters.{
  Ack, acked, timed_out, failed, Post, World, post_letter, write_local_dlq_fallback,
  send_dlq_safely,
}
use ai_cyber_threat_detector.Stream.Detect.{Finding}
use ai_cyber_threat_detector.Stream.Emit.{
  Env, Answers, Worlds, returned, raw_alert, alert_of, correlated, rolled_back, report_incident,
  after_correlation, read_alert, correlate_alert, publish_alert, process_detection,
}
use ai_cyber_threat_detector.Stream.Settled.{is_acked}

module _ {S : Type 0} where
  -- a dead letter touches neither Redis nor the incidents
  letter_aside :
      (post : Post) (event : Dict Value) (alert : Dict Json) (error : String) (w : World S)
      → ((send_dlq_safely post event alert error w).correlation ≡ w.correlation)
        × ((send_dlq_safely post event alert error w).incidents ≡ w.incidents)
  unfolding send_dlq_safely post_letter write_local_dlq_fallback
  letter_aside post event alert error w = ground arith

module _ (env : Env) (r : Redis) where
  abbrev IsAside : Worlds env r → Worlds env r → Type 0
  IsAside w w' = (w'.correlation ≡ w.correlation) × (w'.incidents ≡ w.incidents)

  publish_alert-IsAside :
      (a : Answers) (event : Dict Value) (alert : Dict Json) (w : Worlds env r)
      → is_acked a.publish ≡ false
      → IsAside w (publish_alert env r a event alert w)
  unfolding publish_alert
  publish_alert-IsAside a event alert w h = go a.publish refl h
    where
      go :
          (k : Ack)
          → a.publish ≡ k
          → is_acked k ≡ false
          → IsAside w (publish_alert env r a event alert w)
      go acked e h = absurd (cc h)
      go (timed_out true) e h = rw (e, publish_alert) (letter_aside a.post event alert _ _)
      go (timed_out false) e h = rw (e, publish_alert) (letter_aside a.post event alert _ w)
      go (failed m) e h = rw (e, publish_alert) (letter_aside a.post event alert _ w)

  -- Redis and the incidents are untouched by the alert of a detection that Kafka did not acknowledge: be it that
  -- the publish timed out (even if the message arrived) or failed, that the schema refused
  -- the alert, or that something was raised before.
  pub correlation-process_detection :
      (a : Answers) (event : Dict Value) (trace_id : String) (det : Finding) (w : Worlds env r)
      → is_acked a.publish ≡ false
      → ((process_detection env r a event trace_id det w).correlation ≡ w.correlation)
        × ((process_detection env r a event trace_id det w).incidents ≡ w.incidents)
  unfolding process_detection raw_alert
  correlation-process_detection a event trace_id det w h = elim (Option-cases a.outer) [
    | inr (m, e) ↦ rw (e, process_detection) (letter_aside a.post event _ _ w)
    | inl e ↦
        elim (Bool-cases
          (validate_alert env.ip_text env.is_date_time (alert_of env a event det trace_id))) [
            | inl f ↦
                rw (e, f, process_detection)
                  (publish_alert-IsAside a event (alert_of env a event det trace_id) w h)
            | inr f ↦ rw (e, f, process_detection) (letter_aside a.post event _ _ w)
          ]
  ]

  unsent_taken_back :
      (a : Answers) (event : Dict Value) (alert : Dict Json) (w : Worlds env r) (outcome : Outcome)
      (error : String)
      → a.incident ≡ failed error
      → a.sent_rollback ≡ true
      → (report_incident env r a event alert outcome w).correlation
        ≡ rollback_alert_seen env.ip_text r (read_alert env alert) w.correlation
  unfolding report_incident rolled_back
  unsent_taken_back a event alert w outcome error inc ran =
      rw (inc, ran, report_incident) ((letter_aside a.post event alert error _).0)

  counted_taken_back :
      (a : Answers) (event : Dict Value) (alert : Dict Json) (w : Worlds env r) (outcome : Outcome)
      (error : String)
      → a.correlate ≡ returned
      → a.is_master ≡ true
      → a.incident ≡ failed error
      → a.sent_rollback ≡ true
      → (add_alert env.ip_text r true (read_alert env alert) w.correlation).0 ≡ some outcome
      → outcome.incident ≡ 1
      → (correlate_alert env r a event alert w).correlation
        ≡ rollback_alert_seen env.ip_text r
            (read_alert env alert)
            (add_alert env.ip_text r true (read_alert env alert) w.correlation).1
  unfolding correlate_alert correlated after_correlation
  counted_taken_back a event alert w outcome error ret master inc ran out one =
      rw (ret, correlate_alert)
        (simp master (
          rw out (
            rw ((==_iff outcome.incident 1).1 one)
              (unsent_taken_back a event alert _ outcome error inc ran))))

  -- If the incident of a published alert is refused by Kafka and the rollback runs, the alert leaves nothing in
  -- Redis: its list, its seen set and its count are those from before it was counted. This is for a
  -- master, an accepted address, an id that is not empty, has no spaces around it and had not been seen, a dump
  -- that is not empty, and room in the seen set and in the list.
  pub compensated :
      (a : Answers) (event : Dict Value) (alert : Dict Json) (w : Worlds env r) (c : Call)
      (outcome : Outcome) (error : String)
      → a.correlate ≡ returned
      → a.is_master ≡ true
      → a.incident ≡ failed error
      → a.sent_rollback ≡ true
      → (add_alert env.ip_text r true (read_alert env alert) w.correlation).0 ≡ some outcome
      → outcome.incident ≡ 1
      → correlate_call env.ip_text (read_alert env alert) ≡ some c
      → strip (read_alert env alert).alert_id ≡ (read_alert env alert).alert_id
      → str_eq c.alert_id "" ≡ false
      → str_eq c.alert_json "" ≡ false
      → is_dup r c w.correlation ≡ false
      → length ((Redis.view r w.correlation).zsets (seen_key c.key_name)) < max_seen
      → length ((Redis.view r w.correlation).lists c.key_name) < 100
      → SameWindow c
          (Redis.view r (correlate_alert env r a event alert w).correlation)
          (Redis.view r w.correlation)
  compensated a event alert w c outcome error ret master inc ran out one call plain id json fresh
        room short =
      rw (counted_taken_back a event alert w outcome error ret master inc ran out one) (
        rollback_alert_seen-add_alert env.ip_text (read_alert env alert) c call r w.correlation
          plain id json fresh room short)
