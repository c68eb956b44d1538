-- ===== src/Stream/Settled.antt =====
-- Where each detection of inference/stream_processor_faust.py ends up.
use ai_cyber_threat_detector.Common.{
  ◌≡◌, refl, ◌⊎◌, Bool, true, false, ◌||◌, Option, none, some, List, [], ◌∷◌, String, Bool-cases,
  Option-cases, inl, inr, arith, ◌==◌, if◌then◌else◌,
}
use ai_cyber_threat_detector.Common.{◌++◌ as ◌⧺◌}
use ai_cyber_threat_detector.Common.Dict.{Dict}
use ai_cyber_threat_detector.Redis.{Redis}
use ai_cyber_threat_detector.Correlation.Scripts.{Call, Outcome, correlate}
use ai_cyber_threat_detector.Correlation.Alert.{correlate_call, add_alert}
use ai_cyber_threat_detector.Detection.Event.{Value}
use ai_cyber_threat_detector.Stream.Schema.{Json, validate_alert}
use ai_cyber_threat_detector.Stream.Letters.{
  Ack, acked, timed_out, failed, Incident, Letter, Post, World, letter_of, is_written, post_letter,
  write_local_dlq_fallback, send_dlq_safely,
}
use ai_cyber_threat_detector.Stream.Detect.{Finding}
use ai_cyber_threat_detector.Stream.Emit.{
  Env, Answers, Worlds, never, before, after, Reply, returned, late, redis_error, raised, raw_alert,
  alert_of, correlated, rolled_back, on_timeout, report_incident, after_correlation, read_alert,
  correlate_alert, publish_alert, process_detection,
}
use ai_cyber_threat_detector.Stream.Protocol.{IsReplay}
use ai_cyber_threat_detector.Stream.Steps.{letter_of-IsReplay}

abbrev pub is_acked : Ack → Bool
is_acked acked = true
is_acked _ = false

-- Kafka or the local file takes a dead letter
abbrev pub takes_letters : Post → Bool
takes_letters post = is_acked post.kafka || is_written post.disk

-- a dead letter on the event is the last one, in Kafka or in the file
abbrev pub IsParked : {S : Type 0} → Dict Value → World S → World S → Type 0
IsParked event w w' =
    (letter : Letter) × (letter.original_event ≡ event)
    × IsReplay letter
    × ((w'.dead_letters ≡ w.dead_letters ⧺ letter ∷ [])
        ⊎ (w'.local_letters ≡ w.local_letters ⧺ letter ∷ []))

module _ {S : Type 0} where
  -- whatever has happened in between, as long as it left the dead letters alone
  parked :
      (post : Post) (event : Dict Value) (alert : Dict Json) (error : String) (w x : World S)
      → takes_letters post ≡ true
      → x.dead_letters ≡ w.dead_letters
      → x.local_letters ≡ w.local_letters
      → IsParked event w (send_dlq_safely post event alert error x)
  unfolding send_dlq_safely post_letter write_local_dlq_fallback letter_of
  parked post event alert error w x ok d l = (
    letter_of post.timestamp event alert error,
    refl,
    letter_of-IsReplay post.timestamp event alert error,
    ground (arith, ok, d, l),
  )

-- the incidents after `add_alert` answered
abbrev pub incidents_with : Option Outcome → Dict Json → List Incident → List Incident
incidents_with none alert incidents = incidents
incidents_with (some outcome) alert incidents =
    if outcome.incident == 1
    then incidents ⧺ record { alert = alert; outcome = outcome } ∷ []
    else incidents

module _ (env : Env) (r : Redis) where
  -- the alert is published, and the rest is what `add_alert` makes of it
  record IsAdded (is_master : Bool) (alert : Dict Json) (w w' : Worlds env r) : Type 0 where
    published : w'.alerts ≡ w.alerts ⧺ alert ∷ []
    redis :
        w'.correlation ≡ (add_alert env.ip_text r is_master (read_alert env alert) w.correlation).1
    reported :
        w'.incidents
        ≡ incidents_with
            (add_alert env.ip_text r is_master (read_alert env alert) w.correlation).0
            alert
            w.incidents

  -- What a published alert leaves, by whether a master answers and by the call of the script, which there is if the
  -- correlator accepts the address: it is counted, and its incident, if the flag is 1, is reported; or nothing is.
  abbrev pub IsCounted :
      (is_master : Bool) → Option Call → Dict Json → Worlds env r → Worlds env r → Type 0
  IsCounted true (some c) alert w w' =
      (w'.correlation ≡ (correlate r c w.correlation).1)
      × (w'.incidents ≡ incidents_with (some (correlate r c w.correlation).0) alert w.incidents)
  IsCounted true none alert w w' = (w'.correlation ≡ w.correlation) × (w'.incidents ≡ w.incidents)
  IsCounted false call alert w w' = (w'.correlation ≡ w.correlation) × (w'.incidents ≡ w.incidents)

  abbrev pub IsDone : (is_master : Bool) → Dict Json → Worlds env r → Worlds env r → Type 0
  IsDone is_master alert w w' =
      (w'.alerts ≡ w.alerts ⧺ alert ∷ [])
      × IsCounted is_master (correlate_call env.ip_text (read_alert env alert)) alert w w'

  done :
      (is_master : Bool) (alert : Dict Json) (w w' : Worlds env r)
      → IsAdded is_master alert w w'
      → IsDone is_master alert w w'
  unfolding add_alert
  done false alert w w' h = (h.published, (h.redis, h.reported))
  done true alert w w' h = elim (Option-cases (correlate_call env.ip_text (read_alert env alert))) [
    | inl e ↦ rw e (h.published, (rw (e, add_alert) at h.redis, rw (e, add_alert) at h.reported))
    | inr (c, e) ↦
        rw e (h.published, (rw (e, add_alert) at h.redis, rw (e, add_alert) at h.reported))
  ]

  module _ (a : Answers) (event : Dict Value) (alert : Dict Json)
      (takes : takes_letters a.post ≡ true) where
    parks_late :
        (w x : Worlds env r)
        → x.dead_letters ≡ w.dead_letters
        → x.local_letters ≡ w.local_letters
        → IsParked event w (on_timeout env r a event alert x)
    unfolding on_timeout rolled_back
    parks_late w x d l = elim (Bool-cases a.late_rollback) [
      | inl e ↦ rw e (parked a.post event alert _ w _ takes d l)
      | inr e ↦ rw e (parked a.post event alert _ w _ takes d l)
    ]

    parks_unsent :
        (ran : Bool) (error : String) (w x : Worlds env r)
        → x.dead_letters ≡ w.dead_letters
        → x.local_letters ≡ w.local_letters
        → IsParked event w
            (send_dlq_safely a.post event alert error (rolled_back env r ran alert x))
    unfolding rolled_back
    parks_unsent true error w x d l = parked a.post event alert error w _ takes d l
    parks_unsent false error w x d l = parked a.post event alert error w _ takes d l

    parks_twice :
        (ran : Bool) (w x : Worlds env r)
        → x.dead_letters ≡ w.dead_letters
        → x.local_letters ≡ w.local_letters
        → IsParked event w (on_timeout env r a event alert (rolled_back env r ran alert x))
    unfolding rolled_back
    parks_twice true w x d l = parks_late w _ d l
    parks_twice false w x d l = parks_late w x d l

    reports_or_parks :
        (outcome : Outcome) (w x : Worlds env r)
        → x.dead_letters ≡ w.dead_letters
        → x.local_letters ≡ w.local_letters
        → IsParked event w (report_incident env r a event alert outcome x)
          ⊎ (report_incident env r a event alert outcome x ≡ record x {
            incidents = x.incidents ⧺ record { alert = alert; outcome = outcome } ∷ [];
          })
    unfolding report_incident
    reports_or_parks outcome w x d l = go a.incident refl
      where
        go :
            (k : Ack)
            → a.incident ≡ k
            → IsParked event w (report_incident env r a event alert outcome x)
              ⊎ (report_incident env r a event alert outcome x ≡ record x {
                incidents = x.incidents ⧺ record { alert = alert; outcome = outcome } ∷ [];
              })
        go acked e = rw (e, report_incident) (inr refl)
        go (timed_out true) e = inl (rw (e, report_incident) (parks_twice a.sent_rollback w _ d l))
        go (timed_out false) e = inl (rw (e, report_incident) (parks_twice a.sent_rollback w x d l))
        go (failed m) e = inl (rw (e, report_incident) (parks_unsent a.sent_rollback m w x d l))

    abbrev Ends : Worlds env r → Worlds env r → Type 0
    Ends w w' = IsParked event w w' ⊎ IsAdded a.is_master alert w w'

    abbrev with_alert : Worlds env r → Worlds env r
    with_alert w = record w { alerts = w.alerts ⧺ alert ∷ [] }

    -- what is left to do once the script has answered
    answers_end :
        (w : Worlds env r) (o : Option Outcome)
        → (add_alert env.ip_text r a.is_master (read_alert env alert) w.correlation).0 ≡ o
        → Ends w
            (after_correlation env r a event alert o (correlated env r a alert (with_alert w)).1)
    unfolding after_correlation correlated
    answers_end w none e = inr (record { published = refl; redis = refl; reported = rw e refl })
    answers_end w (some outcome) e = elim (Bool-cases (outcome.incident == 1)) [
      | inr f ↦ rw f (inr (record { published = refl; redis = refl; reported = rw (e, f) refl }))
      | inl f ↦
          elim (reports_or_parks outcome w (correlated env r a alert (with_alert w)).1 refl refl) [
            | inl p ↦ rw f (inl p)
            | inr q ↦
                rw (f, q)
                  (inr (record { published = refl; redis = refl; reported = rw (e, f) refl }))
          ]
    ]

    -- what is left to do once the alert is published
    correlates_or_parks :
        (w : Worlds env r) → Ends w (correlate_alert env r a event alert (with_alert w))
    unfolding correlate_alert correlated
    correlates_or_parks w = go a.correlate refl
      where
        go :
            (k : Reply)
            → a.correlate ≡ k
            → Ends w (correlate_alert env r a event alert (with_alert w))
        go returned e = rw (e, correlate_alert) (answers_end w _ refl)
        go (late never) e = inl (rw (e, correlate_alert) (parks_late w (with_alert w) refl refl))
        go (late before) e = inl (rw (e, correlate_alert) (parks_late w _ refl refl))
        go (late after) e = inl (rw (e, correlate_alert) (parks_late w (with_alert w) refl refl))
        go (redis_error true m) e =
            inl (rw (e, correlate_alert) (parked a.post event alert _ w _ takes refl refl))
        go (redis_error false m) e =
            inl (rw (e, correlate_alert) (parked a.post event alert _ w _ takes refl refl))
        go (raised true m) e =
            inl (rw (e, correlate_alert) (parked a.post event alert m w _ takes refl refl))
        go (raised false m) e =
            inl (rw (e, correlate_alert) (parked a.post event alert m w _ takes refl refl))

    publishes_or_parks : (w : Worlds env r) → Ends w (publish_alert env r a event alert w)
    unfolding publish_alert
    publishes_or_parks w = go a.publish refl
      where
        go : (k : Ack) → a.publish ≡ k → Ends w (publish_alert env r a event alert w)
        go acked e = rw (e, publish_alert) (correlates_or_parks w)
        go (timed_out true) e =
            inl (rw (e, publish_alert) (parked a.post event alert _ w _ takes refl refl))
        go (timed_out false) e =
            inl (rw (e, publish_alert) (parked a.post event alert _ w _ takes refl refl))
        go (failed m) e =
            inl (rw (e, publish_alert) (parked a.post event alert _ w _ takes refl refl))

  -- If Kafka takes dead letters or the local file can be written, then whatever the other calls answer, either
  -- a dead letter on the event, marked as a replay, is the last one in Kafka or in the file, or the alert has been
  -- published. In the second case, if Redis is the master and the correlator accepts the alert's address, Redis is what
  -- CORRELATE_LUA leaves, and the incident has been reported if the script's flag is 1, and none if it is not;
  -- otherwise Redis and the incidents are as before: the alert is published but not counted.
  pub process_detection-settles :
      (a : Answers) (event : Dict Value) (trace_id : String) (det : Finding) (w : Worlds env r)
      → takes_letters a.post ≡ true
      → IsParked event w (process_detection env r a event trace_id det w)
        ⊎ IsDone a.is_master
            (alert_of env a event det trace_id)
            w
            (process_detection env r a event trace_id det w)
  unfolding process_detection raw_alert
  process_detection-settles a event trace_id det w takes = elim (Option-cases a.outer) [
    | inr (m, e) ↦ inl (rw (e, process_detection) (parked a.post event _ _ w w takes refl refl))
    | inl e ↦
        elim (Bool-cases
          (validate_alert env.ip_text env.is_date_time (alert_of env a event det trace_id))) [
            | inl f ↦
                rw (e, f, process_detection)
                  (settled (publishes_or_parks a event (alert_of env a event det trace_id) takes w))
            | inr f ↦
                inl (rw (e, f, process_detection) (parked a.post event _ _ w w takes refl refl))
          ]
  ]
    where
      settled :
          {w' : Worlds env r}
          → IsParked event w w' ⊎ IsAdded a.is_master (alert_of env a event det trace_id) w w'
          → IsParked event w w' ⊎ IsDone a.is_master (alert_of env a event det trace_id) w w'
      settled (inl p) = inl p
      settled (inr h) = inr (done a.is_master (alert_of env a event det trace_id) w _ h)
