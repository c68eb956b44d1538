-- ===== src/Stream/Refines.antt =====
-- The handler of inference/stream_processor_faust.py follows the protocol, whatever Kafka, Redis and the clock answer.
use ai_cyber_threat_detector.Common.{
  List, [], ◌∷◌, String, Bool-cases, inl, inr, ℕ, suc, Option-cases,
}
use ai_cyber_threat_detector.Common.Dict.{Dict}
use ai_cyber_threat_detector.Redis.{Redis}
use ai_cyber_threat_detector.Detection.Event.{Value}
use ai_cyber_threat_detector.Detection.Features.{extract_features}
use ai_cyber_threat_detector.Stream.Schema.{validate_alert}
use ai_cyber_threat_detector.Stream.Detect.{Finding}
use ai_cyber_threat_detector.Stream.Emit.{Env, Answers, Worlds, alert_of, process_detection}
use ai_cyber_threat_detector.Stream.Process.{
  Turn, process_detections, process_event, process_traffic,
}
use ai_cyber_threat_detector.Stream.Protocol.{IsSound, Reach, here, Reach-IsSound}
use ai_cyber_threat_detector.Stream.Steps.{parks, publishes}

module _ (env : Env) (r : Redis) where
  module _ (event : Dict Value) (trace_id : String) (v : Worlds env r) where
    -- One detection is handled by the protocol.
    handles :
        (a : Answers) (det : Finding) (w : Worlds env r)
        → Reach env r v w
        → Reach env r v (process_detection env r a event trace_id det w)
    unfolding process_detection
    handles a det w reach = elim (Option-cases a.outer) [
      | inr (m, e) ↦ rw (e, process_detection) (parks env r a.post event _ _ v w reach)
      | inl e ↦
          elim (Bool-cases
            (validate_alert env.ip_text env.is_date_time (alert_of env a event det trace_id))) [
              | inl f ↦
                  rw (e, f, process_detection)
                    (publishes env r a event (alert_of env a event det trace_id) v w f reach)
              | inr f ↦ rw (e, f, process_detection) (parks env r a.post event _ _ v w reach)
            ]
    ]

    handles_all :
        (answers : ℕ → Answers) (dets : List Finding) (w : Worlds env r)
        → Reach env r v w
        → Reach env r v (process_detections env r answers event trace_id dets w)
    unfolding process_detections
    handles_all answers [] w reach = reach
    handles_all answers (det ∷ dets) w reach =
        handles_all (λ n. answers (suc n)) dets _ (handles (answers 0) det w reach)

module _ (env : Env) (malicious : List String) (entropy : String → ℕ) (r : Redis) where
  reaches :
      (v w : Worlds env r) (t : Turn)
      → Reach env r v w
      → Reach env r v (process_event env malicious entropy r t w)
  unfolding process_event
  reaches v w t reach = elim (Option-cases (extract_features entropy t.event)) [
    | inl e ↦ rw (e, process_event) reach
    | inr (features, e) ↦ rw (e, process_event) (handles_all env r t.event _ v t.answers _ w reach)
  ]

  runs :
      (v : Worlds env r) (stream : List Turn) (w : Worlds env r)
      → Reach env r v w
      → Reach env r v (process_traffic env malicious entropy r stream w)
  unfolding process_traffic
  runs v [] w reach = reach
  runs v (t ∷ stream) w reach = runs v stream _ (reaches v w t reach)

  -- The handler refines the two-phase protocol: whatever is answered to its calls, a run over any
  -- events is a sequence of the protocol's steps, in which Redis counts or forgets an alert only
  -- after Kafka has taken it, and an incident is reported only in the step in which the script counts a published
  -- alert and answers with the flag 1, and with that answer.
  pub process_traffic-Reach :
      (stream : List Turn) (w : Worlds env r)
      → Reach env r w (process_traffic env malicious entropy r stream w)
  process_traffic-Reach stream w = runs w stream w here

  -- A run keeps what has been written sound: every published alert passes the schema, every incident is of a published
  -- alert and carries an answer that the script gives of that alert in some state of Redis, with the flag 1, and every dead letter, in Kafka or in the local file, carries the replay mark.
  pub process_traffic-IsSound :
      (stream : List Turn) (w : Worlds env r)
      → IsSound env r w
      → IsSound env r (process_traffic env malicious entropy r stream w)
  process_traffic-IsSound stream w h = Reach-IsSound env r (process_traffic-Reach stream w) h
