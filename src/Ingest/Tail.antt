-- ===== src/Ingest/Tail.antt =====
-- `process_log` of ingest/tail_to_redpanda.py, and `validate_zeek_event` of inference/schemas.py. JSON and the
-- producer are parameters: each turn of the loop is given what they answer.
use ai_cyber_threat_detector.Common.{
  ℕ, ◌+◌, Bool, true, false, List, [], ◌∷◌, ◌++◌, String, str_eq, if◌then◌else◌, is_some,
}
use ai_cyber_threat_detector.Common.Dict
use ai_cyber_threat_detector.Common.Dict.{Dict}
use ai_cyber_threat_detector.Common.Text.{strip}
use ai_cyber_threat_detector.Detection.Event.{Value, text}

-- what `json.loads` gives: an object, something else, or a JSONDecodeError
pub data Decoded : Type 0 where
  object : Dict Value → Decoded
  no_object invalid : Decoded

-- how `producer.send` ends: it takes the event, or raises a ValueError, or something else
pub data Sending : Type 0 where
  sent value_error failed : Sending

-- What one turn of the loop meets: the line that is read, empty if there is none.
pub record Turn : Type 0 where
  pub line : String
  pub decoded : Decoded
  pub now : Value
  pub send_raw : Sending
  pub send_dead : Sending

-- `metrics`, with the two topics, newest last. `stopped` says that an exception has left the loop.
pub record Tailer : Type 0 where
  pub read : ℕ
  pub published : ℕ
  pub rejected : ℕ
  pub dead_lettered : ℕ
  pub raw_traffic : List (Dict Value)
  pub dead_letter_events : List String
  pub stopped : Bool

abbrev pub fresh : Tailer
fresh = record {
  read = 0;
  published = 0;
  rejected = 0;
  dead_lettered = 0;
  raw_traffic = [];
  dead_letter_events = [];
  stopped = false;
}

unfoldable pub validate_zeek_event : Dict Value → Bool
validate_zeek_event event_dict = is_some (Dict.get event_dict "ts")

-- the handler of a JSONDecodeError or a ValueError
unfoldable pub reject : Turn → Tailer → Tailer
reject t s = elim t.send_dead [
  | sent ↦ record s {
    rejected = s.rejected + 1;
    dead_lettered = s.dead_lettered + 1;
    dead_letter_events = s.dead_letter_events ++ strip t.line ∷ [];
  }
  | _ ↦ record s { rejected = s.rejected + 1; stopped = true }
]

module _ (sensor_id log_type : String) where
  unfoldable pub enriched : Turn → Dict Value → Dict Value
  enriched t event =
      Dict.put (Dict.put (Dict.put event "ingestion_timestamp" t.now) "sensor_id" (text sensor_id))
        "event_type" (text log_type)

  unfoldable pub publish : Turn → Dict Value → Tailer → Tailer
  publish t event s = elim t.send_raw [
    | sent ↦ record s {
      published = s.published + 1;
      raw_traffic = s.raw_traffic ++ enriched t event ∷ [];
    }
    | value_error ↦ reject t s
    | failed ↦ record s { rejected = s.rejected + 1 }
  ]

  -- the `try` of one line
  unfoldable pub ship : Turn → Tailer → Tailer
  ship t s = elim t.decoded [
    | object event ↦ if validate_zeek_event event then publish t event s else reject t s
    | no_object ↦ reject t s
    | invalid ↦ reject t s
  ]

  unfoldable pub turn : Turn → Tailer → Tailer
  turn t s =
      let s' = record s { read = s.read + 1 } in
      if str_eq t.line "" then s else if str_eq (strip t.line) "" then s' else ship t s'

  -- `while running`, as long as no exception leaves it
  unfoldable pub tail : List Turn → Tailer → Tailer
  tail [] s = s
  tail (t ∷ turns) s = let rest = tail turns (turn t s) in if s.stopped then s else rest
