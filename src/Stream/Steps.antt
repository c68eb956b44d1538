-- ===== src/Stream/Steps.antt =====
-- Each part of the handler of inference/stream_processor_faust.py is a run of steps of the protocol.
use ai_cyber_threat_detector.Common.{
  ◌≡◌, refl, Bool, true, false, Option, none, some, String, Bool-cases, inl, inr, eq_refl, ==_iff,
}
use ai_cyber_threat_detector.Common.{◌==◌, arith}
use ai_cyber_threat_detector.Common.Dict.{Dict, get-put}
use ai_cyber_threat_detector.Redis.{Redis}
use ai_cyber_threat_detector.Correlation.Scripts.{Outcome}
use ai_cyber_threat_detector.Correlation.Alert.{add_alert}
use ai_cyber_threat_detector.Common.{[], ◌∷◌}
use ai_cyber_threat_detector.Common.{◌++◌ as ◌⧺◌}
use ai_cyber_threat_detector.Detection.Event.{Value}
use ai_cyber_threat_detector.Stream.Schema.{Json, flag}
use ai_cyber_threat_detector.Stream.Letters.{
  Ack, acked, timed_out, failed, Letter, Post, letter_of, is_written, post_letter,
  write_local_dlq_fallback, send_dlq_safely,
}
use ai_cyber_threat_detector.Stream.Emit.{
  Env, Answers, Worlds, never, before, after, Reply, returned, late, redis_error, raised,
  correlated, rolled_back, on_timeout, report_incident, after_correlation, correlate_alert,
  publish_alert, read_alert,
}
use ai_cyber_threat_detector.Stream.Protocol.{
  IsReplay, IsPublished, IsValid, IsAnswer, Reach, next, put_alert, count, undo, count_and_report,
  park, park_local, Mem-last,
}

pub letter_of-IsReplay :
    (timestamp : String) (event : Dict Value) (alert : Dict Json) (error : String)
    → IsReplay (letter_of timestamp event alert error)
unfolding letter_of
letter_of-IsReplay timestamp event alert error =
    rw (get-put alert "is_replay" "is_replay" (flag true), eq_refl "is_replay") refl

module _ (env : Env) (r : Redis) where
  parks_local :
      (post : Post) (letter : Letter) (v w : Worlds env r)
      → IsReplay letter
      → Reach env r v w
      → Reach env r v (write_local_dlq_fallback post.disk letter w)
  unfolding write_local_dlq_fallback
  parks_local post letter v w replay a = elim (Bool-cases (is_written post.disk)) [
    | inl e ↦ rw (e, write_local_dlq_fallback) (next a (park_local letter w replay))
    | inr e ↦ rw (e, write_local_dlq_fallback) a
  ]

  -- a dead letter is a step of the protocol, or two, or none if neither place takes it
  pub parks :
      (post : Post) (event : Dict Value) (alert : Dict Json) (error : String) (v w : Worlds env r)
      → Reach env r v w
      → Reach env r v (send_dlq_safely post event alert error w)
  unfolding send_dlq_safely post_letter
  parks post event alert error v w a =
      go (letter_of post.timestamp event alert error) refl
        (letter_of-IsReplay post.timestamp event alert error) post.kafka refl
    where
      go :
          (letter : Letter)
          → letter_of post.timestamp event alert error ≡ letter
          → IsReplay letter
          → (k : Ack) → post.kafka ≡ k
          → Reach env r v (send_dlq_safely post event alert error w)
      go letter f replay acked e = rw (e, f, send_dlq_safely) (next a (park letter w replay))
      go letter f replay (timed_out true) e =
          rw (e, f, send_dlq_safely)
            (parks_local post letter v (post_letter letter w) replay
              (next a (park letter w replay)))
      go letter f replay (timed_out false) e =
          rw (e, f, send_dlq_safely) (parks_local post letter v w replay a)
      go letter f replay (failed m) e =
          rw (e, f, send_dlq_safely) (parks_local post letter v w replay a)

  -- a dead letter leaves the published alerts alone
  pub alerts-send_dlq_safely :
      (post : Post) (event : Dict Value) (alert : Dict Json) (error : String) (w : Worlds env r)
      → (send_dlq_safely post event alert error w).alerts ≡ w.alerts
  unfolding send_dlq_safely post_letter write_local_dlq_fallback
  alerts-send_dlq_safely post event alert error w = ground arith

  module _ (a : Answers) (event : Dict Value) (alert : Dict Json) (v w : Worlds env r)
      (reach : Reach env r v w) (published : IsPublished alert w) where
    counts : Reach env r v (correlated env r a alert w).1
    unfolding correlated
    counts = next reach (count alert a.is_master w published)

    undoes : (ran : Bool) → Reach env r v (rolled_back env r ran alert w)
    unfolding rolled_back
    undoes true = next reach (undo alert w published)
    undoes false = reach

    times_out : Reach env r v (on_timeout env r a event alert w)
    unfolding on_timeout
    times_out =
        parks a.post event alert "Timeout during correlation or incident send" v
          (rolled_back env r a.late_rollback alert w) (undoes a.late_rollback)

  module _ (a : Answers) (event : Dict Value) (alert : Dict Json) (v : Worlds env r) where
    stays :
        (ran : Bool) (x : Worlds env r)
        → IsPublished alert x
        → IsPublished alert (rolled_back env r ran alert x)
    unfolding rolled_back
    stays true x m = m
    stays false x m = m

    reports :
        (outcome : Outcome) (w : Worlds env r)
        → IsAnswer env r alert a.is_master outcome w.correlation
        → outcome.incident ≡ 1
        → Reach env r v w
        → IsPublished alert w
        → Reach env r v (report_incident env r a event alert outcome (correlated env r a alert w).1)
    unfolding report_incident correlated
    reports outcome w answer one reach published = go a.incident refl
      where
        sent : Reach env r v (record w {
          correlation =
              (add_alert env.ip_text r a.is_master (read_alert env alert) w.correlation).1;
          incidents = w.incidents ⧺ record { alert = alert; outcome = outcome } ∷ [];
        })
        sent = next reach (count_and_report alert a.is_master outcome w published answer one)

        go :
            (k : Ack)
            → a.incident ≡ k
            → Reach env r v
                (report_incident env r a event alert outcome (correlated env r a alert w).1)
        go acked e = rw (e, report_incident) sent
        go (timed_out true) e =
            rw (e, report_incident)
              (times_out a event alert v _ (undoes a event alert v _ sent published a.sent_rollback)
                (stays a.sent_rollback _ published))
        go (timed_out false) e =
            rw (e, report_incident)
              (times_out a event alert v _
                (undoes a event alert v _ (counts a event alert v w reach published) published
                  a.sent_rollback)
                (stays a.sent_rollback _ published))
        go (failed m) e =
            rw (e, report_incident)
              (parks a.post event alert m v _ (
                undoes a event alert v _ (counts a event alert v w reach published) published
                  a.sent_rollback))

    counted_stays :
        (w : Worlds env r) → IsPublished alert w → IsPublished alert (correlated env r a alert w).1
    unfolding correlated
    counted_stays w m = m

    after_timeout :
        (w : Worlds env r)
        → IsPublished alert w
        → IsPublished alert (on_timeout env r a event alert w)
    unfolding on_timeout
    after_timeout w m =
        rw
          (alerts-send_dlq_safely a.post event alert "Timeout during correlation or incident send"
            (rolled_back env r a.late_rollback alert w))
          (stays a.late_rollback w m)

    responds :
        (o : Option Outcome) (w : Worlds env r)
        → (add_alert env.ip_text r a.is_master (read_alert env alert) w.correlation).0 ≡ o
        → Reach env r v w
        → IsPublished alert w
        → Reach env r v (after_correlation env r a event alert o (correlated env r a alert w).1)
    unfolding after_correlation
    responds none w answer reach published = counts a event alert v w reach published
    responds (some outcome) w answer reach published = elim (Bool-cases (outcome.incident == 1)) [
      | inl e ↦ rw e (reports outcome w answer ((==_iff outcome.incident 1).0 e) reach published)
      | inr e ↦ rw e (counts a event alert v w reach published)
    ]

    correlates :
        (w : Worlds env r)
        → Reach env r v w
        → IsPublished alert w
        → Reach env r v (correlate_alert env r a event alert w)
    unfolding correlate_alert correlated
    correlates w reach published = go a.correlate refl
      where
        go : (k : Reply) → a.correlate ≡ k → Reach env r v (correlate_alert env r a event alert w)
        go returned e =
            rw (e, correlate_alert) (responds (correlated env r a alert w).0 w refl reach published)
        go (late never) e = rw (e, correlate_alert) (times_out a event alert v w reach published)
        go (late before) e =
            rw (e, correlate_alert)
              (times_out a event alert v _ (counts a event alert v w reach published)
                (counted_stays w published))
        go (late after) e =
            rw (e, correlate_alert)
              (counts a event alert v _ (times_out a event alert v w reach published)
                (after_timeout w published))
        go (redis_error true m) e =
            rw (e, correlate_alert)
              (parks a.post event alert _ v _ (counts a event alert v w reach published))
        go (redis_error false m) e = rw (e, correlate_alert) (parks a.post event alert _ v w reach)
        go (raised true m) e =
            rw (e, correlate_alert)
              (parks a.post event alert m v _ (counts a event alert v w reach published))
        go (raised false m) e = rw (e, correlate_alert) (parks a.post event alert m v w reach)

    pub publishes :
        (w : Worlds env r)
        → IsValid env r alert
        → Reach env r v w
        → Reach env r v (publish_alert env r a event alert w)
    unfolding publish_alert
    publishes w ok reach = go a.publish refl
      where
        go : (k : Ack) → a.publish ≡ k → Reach env r v (publish_alert env r a event alert w)
        go acked e =
            rw (e, publish_alert)
              (correlates _ (next reach (put_alert alert w ok)) (Mem-last alert w.alerts))
        go (timed_out true) e =
            rw (e, publish_alert)
              (parks a.post event alert _ v _ (next reach (put_alert alert w ok)))
        go (timed_out false) e = rw (e, publish_alert) (parks a.post event alert _ v w reach)
        go (failed m) e = rw (e, publish_alert) (parks a.post event alert _ v w reach)
