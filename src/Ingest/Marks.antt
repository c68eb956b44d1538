-- ===== src/Ingest/Marks.antt =====
-- What the events that ingest/tail_to_redpanda.py publishes carry.
use ai_cyber_threat_detector.Common.{
  ◌+◌, ◌≡◌, refl, ◌∙◌, ap, true, some, List, [], ◌∷◌, String, str_eq, is_some, All, All-append,
  Bool-cases, inl, inr,
}
use ai_cyber_threat_detector.Common.Dict
use ai_cyber_threat_detector.Common.Dict.{Dict, get-put}
use ai_cyber_threat_detector.Common.Text.{strip}
use ai_cyber_threat_detector.Detection.Event.{Value, text}
use ai_cyber_threat_detector.Ingest.Tail.{
  Decoded, object, no_object, invalid, Sending, sent, value_error, failed, Turn, Tailer, fresh,
  validate_zeek_event, reject, enriched, publish, ship, turn, tail,
}

module _ (sensor_id log_type : String) where
  pub record IsMarked (event : Dict Value) : Type 0 where
    pub log : Dict.get event "event_type" ≡ some (text log_type)
    pub sensor : Dict.get event "sensor_id" ≡ some (text sensor_id)
    pub ts : is_some (Dict.get event "ts") ≡ true

  enriched-IsMarked :
      (t : Turn) (event : Dict Value)
      → validate_zeek_event event ≡ true
      → IsMarked (enriched sensor_id log_type t event)
  unfolding enriched validate_zeek_event
  enriched-IsMarked t event h =
      let now = Dict.put event "ingestion_timestamp" t.now in
      let here = Dict.put now "sensor_id" (text sensor_id) in
      record {
        log = get-put here "event_type" "event_type" (text log_type);
        sensor =
            get-put here "event_type" "sensor_id" (text log_type)
            ∙ get-put now "sensor_id" "sensor_id" (text sensor_id);
        ts =
            ap is_some (
              get-put here "event_type" "ts" (text log_type)
              ∙ get-put now "sensor_id" "ts" (text sensor_id)
              ∙ get-put event "ingestion_timestamp" "ts" t.now)
            ∙ h;
      }

  abbrev AreMarked : Tailer → Type 0
  AreMarked s = All IsMarked s.raw_traffic

  raw_traffic-reject : (t : Turn) (s : Tailer) → (reject t s).raw_traffic ≡ s.raw_traffic
  unfolding reject
  raw_traffic-reject t s = go t.send_dead refl
    where
      go : (d : Sending) → t.send_dead ≡ d → (reject t s).raw_traffic ≡ s.raw_traffic
      go sent e = rw (e, reject) refl
      go value_error e = rw (e, reject) refl
      go failed e = rw (e, reject) refl

  publish-AreMarked :
      (t : Turn) (event : Dict Value) (s : Tailer)
      → validate_zeek_event event ≡ true
      → AreMarked s
      → AreMarked (publish sensor_id log_type t event s)
  unfolding publish
  publish-AreMarked t event s valid h = go t.send_raw refl
    where
      go : (d : Sending) → t.send_raw ≡ d → AreMarked (publish sensor_id log_type t event s)
      go sent e =
          rw (e, publish)
            (All-append IsMarked s.raw_traffic (enriched sensor_id log_type t event ∷ []) h
              (enriched-IsMarked t event valid, tt))
      go value_error e = rw (e, publish) (rw (raw_traffic-reject t s) h)
      go failed e = rw (e, publish) h

  ship-AreMarked : (t : Turn) (s : Tailer) → AreMarked s → AreMarked (ship sensor_id log_type t s)
  unfolding ship
  ship-AreMarked t s h = go t.decoded refl
    where
      rejected : AreMarked (reject t s)
      rejected = rw (raw_traffic-reject t s) h

      go : (d : Decoded) → t.decoded ≡ d → AreMarked (ship sensor_id log_type t s)
      go (object event) e = elim (Bool-cases (validate_zeek_event event)) [
        | inl f ↦ rw (e, ship) (rw f (publish-AreMarked t event s f h))
        | inr f ↦ rw (e, ship) (rw f rejected)
      ]
      go no_object e = rw (e, ship) rejected
      go invalid e = rw (e, ship) rejected

  turn-AreMarked : (t : Turn) (s : Tailer) → AreMarked s → AreMarked (turn sensor_id log_type t s)
  unfolding turn
  turn-AreMarked t s h = elim (Bool-cases (str_eq t.line "")) [
    | inl e ↦ simp e h
    | inr e ↦ elim (Bool-cases (str_eq (strip t.line) "")) [
      | inl f ↦ simp (e, f) h
      | inr f ↦ simp (e, f) (ship-AreMarked t (record s { read = s.read + 1 }) h)
    ]
  ]

  tail-AreMarked :
      (turns : List Turn) (s : Tailer) → AreMarked s → AreMarked (tail sensor_id log_type turns s)
  unfolding tail
  tail-AreMarked [] s h = h
  tail-AreMarked (t ∷ turns) s h = elim (Bool-cases s.stopped) [
    | inl e ↦ simp e h
    | inr e ↦ simp e (tail-AreMarked turns (turn sensor_id log_type t s) (turn-AreMarked t s h))
  ]

  -- Every event that is published carries a timestamp, the type of the log it comes from and the sensor's name,
  -- whatever event type and sensor the line claims.
  pub tail_marks :
      (turns : List Turn) → All IsMarked (tail sensor_id log_type turns fresh).raw_traffic
  tail_marks turns = tail-AreMarked turns fresh tt
