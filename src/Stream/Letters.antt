-- ===== src/Stream/Letters.antt =====
-- `_send_dlq_safely` and `_write_local_dlq_fallback` of inference/stream_processor_faust.py.
use Prim.Native.String.{◌++◌}
use ai_cyber_threat_detector.Common.{Bool, true, ◌&&◌, List, [], ◌∷◌, String, if◌then◌else◌, str_eq}
use ai_cyber_threat_detector.Common.{◌++◌ as ◌⧺◌}
use ai_cyber_threat_detector.Common.Dict
use ai_cyber_threat_detector.Common.Dict.{Dict}
use ai_cyber_threat_detector.Common.Text.{has_part}
use ai_cyber_threat_detector.Correlation.Scripts.{Outcome}
use ai_cyber_threat_detector.Detection.Event.{Value}
use ai_cyber_threat_detector.Stream.Schema.{Json, flag}

-- how a send under `asyncio.wait_for` ends: a message that timed out may have arrived
pub data Ack : Type 0 where
  acked : Ack
  timed_out : (arrived : Bool) → Ack
  failed : String → Ack

-- the payload of a dead letter
pub record Letter : Type 0 where
  pub original_event : Dict Value
  pub alert : Dict Json
  pub error : String
  pub timestamp : String

-- An incident, by the alert that raised it and the script's result that its report is built from.
pub record Incident : Type 0 where
  pub alert : Dict Json
  pub outcome : Outcome

-- what the handler writes to: the topics, the local dead letter file, and Redis
pub record World (S : Type 0) : Type 0 where
  pub alerts : List (Dict Json)
  pub incidents : List Incident
  pub dead_letters : List Letter
  pub local_letters : List Letter
  pub correlation : S

-- Which steps of the write to the local file succeed. The lock is released in each case.
pub record Disk : Type 0 where
  pub makes_dir : Bool
  pub opens_lock : Bool
  pub locks : Bool
  pub opens_file : Bool
  pub writes : Bool

-- what a dead letter meets
pub record Post : Type 0 where
  pub timestamp : String
  pub kafka : Ack
  pub disk : Disk

unfoldable pub is_written : Disk → Bool
is_written d = d.makes_dir && (d.opens_lock && (d.locks && (d.opens_file && d.writes)))

-- DLQ_FILE_PATH, a file for each pod: `format_pod` is `str.format`, and the rest are those of `os.path`
unfoldable pub dlq_file_path :
    (format_pod : String → String → String) (split splitext : String → String × String)
    (join : String → String → String) (raw_dlq_path pod_name : String)
    → String
dlq_file_path format_pod split splitext join raw_dlq_path pod_name =
    let (base_dir, filename) = split raw_dlq_path in
    let (name, ext) = splitext filename in
    if has_part "{pod}" raw_dlq_path
    then format_pod raw_dlq_path pod_name
    else if str_eq pod_name "default"
    then raw_dlq_path
    else join base_dir (name ++ ("-" ++ (pod_name ++ ext)))

-- the alert is stamped, so that the correlator counts it when it is sent again
unfoldable pub letter_of : String → Dict Value → Dict Json → String → Letter
letter_of timestamp event alert error = record {
  original_event = event;
  alert = Dict.put alert "is_replay" (flag true);
  error = error;
  timestamp = timestamp;
}

module _ {S : Type 0} where
  unfoldable pub write_local_dlq_fallback : Disk → Letter → World S → World S
  write_local_dlq_fallback disk payload w =
      if is_written disk then record w { local_letters = w.local_letters ⧺ payload ∷ [] } else w

  unfoldable pub post_letter : Letter → World S → World S
  post_letter payload w = record w { dead_letters = w.dead_letters ⧺ payload ∷ [] }

  -- the file is written by the executor, or directly if that fails: the write itself never raises
  unfoldable pub send_dlq_safely : Post → Dict Value → Dict Json → String → World S → World S
  send_dlq_safely post event alert error w =
      let payload = letter_of post.timestamp event alert error in
      elim post.kafka [
        | acked ↦ post_letter payload w
        | timed_out arrived ↦
            write_local_dlq_fallback post.disk payload
              (if arrived then post_letter payload w else w)
        | failed e ↦ write_local_dlq_fallback post.disk payload w
      ]
