-- ===== src/Stream/Process.antt =====
-- `process_traffic` of inference/stream_processor_faust.py over a run of events.
use ai_cyber_threat_detector.Common.{ℕ, suc, none, some, List, [], ◌∷◌, String}
use ai_cyber_threat_detector.Common.Dict.{Dict}
use ai_cyber_threat_detector.Redis.{Redis}
use ai_cyber_threat_detector.Detection.Event.{Value}
use ai_cyber_threat_detector.Detection.Features.{Features, extract_features}
use ai_cyber_threat_detector.Stream.Detect.{Finding, DlAnswer, detections, event_trace_id}
use ai_cyber_threat_detector.Stream.Emit.{Env, Answers, Worlds, process_detection}

-- An event with what it meets: the network's answer, a fresh trace id, and the answers for each of its detections.
pub record Turn : Type 0 where
  pub event : Dict Value
  pub predict : Features → String → DlAnswer
  pub fresh_id : String
  pub answers : ℕ → Answers

module _ (env : Env) (r : Redis) where
  unfoldable pub process_detections :
      (ℕ → Answers) → Dict Value → String → List Finding → Worlds env r → Worlds env r
  process_detections answers event trace_id [] w = w
  process_detections answers event trace_id (det ∷ rest) w =
      process_detections (λ n. answers (suc n)) event trace_id rest
        (process_detection env r (answers 0) event trace_id det w)

module _ (env : Env) (malicious : List String) (entropy : String → ℕ) (r : Redis) where
  -- an event whose features cannot be read is skipped
  unfoldable pub process_event : Turn → Worlds env r → Worlds env r
  unfolding event_trace_id
  process_event t w = elim (extract_features entropy t.event) [
    | none ↦ w
    | some features ↦
        process_detections env r t.answers t.event (event_trace_id env.str_of t.event t.fresh_id)
          (detections malicious env.str_of t.predict t.event features) w
  ]

  unfoldable pub process_traffic : List Turn → Worlds env r → Worlds env r
  process_traffic [] w = w
  process_traffic (t ∷ stream) w = process_traffic stream (process_event t w)
