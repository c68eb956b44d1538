-- ===== src/Examples/Windows.antt =====
-- One alert in an empty window of inference/correlation.py.
use ai_cyber_threat_detector.Common.{◌≡◌, refl, false, none, some, [], ◌∷◌, arith, take, max, ◌+◌}
use ai_cyber_threat_detector.Redis.{
  View, view_zadd, zinsert, zwithout, zmember, view_expire, view_lpush, view_ltrim, view_incr,
  view_set, view_zpop,
}
use ai_cyber_threat_detector.Redis.Memory.{memory}
use ai_cyber_threat_detector.Correlation.Scripts.{
  Call, refused, correlate, rollback, total_count, current_max, is_dup, count_alert, remember,
  push_alert, bump_count, note_max, dedup_window, arm, cap_seen, is_incident,
}
use ai_cyber_threat_detector.Correlation.Keys.{IsSeparate}
use ai_cyber_threat_detector.Correlation.Counting.{counted, correlate-counted}
use ai_cyber_threat_detector.Correlation.Replay.{IsBounded, correlate-correlate}
use ai_cyber_threat_detector.Correlation.Rollback.{SameWindow, rollback-correlate}
use ai_cyber_threat_detector.Correlation.Expiry.{ttls-correlate}

abbrev empty : View
empty = record { lists = λ k. []; zsets = λ k. []; nums = λ k. none; ttls = λ k. none }

abbrev call : Call
call = record {
  key_name = "corr:10.0.0.5";
  dedup_name = "dedup:10.0.0.5";
  alert_json = "{}";
  window = 300;
  severity_score = 75;
  alert_id = "a1";
  is_replay = false;
}

-- a second alert of the same source
abbrev second : Call
second = record call { alert_id = "a2"; severity_score = 50 }

separate : IsSeparate call
separate = record {
  key_seen = refl;
  key_count = refl;
  key_dedup = refl;
  seen_key' = refl;
  seen_count = refl;
  seen_dedup = refl;
  count_key' = refl;
  count_seen = refl;
  count_dedup = refl;
  dedup_key = refl;
  dedup_seen = refl;
  dedup_count = refl;
}

IsBounded-empty : IsBounded empty
IsBounded-empty = record { alerts = λ j. omega arith; seen = λ j. omega arith }

IsSeparate-second : IsSeparate second
IsSeparate-second = record {
  key_seen = refl;
  key_count = refl;
  key_dedup = refl;
  seen_key' = refl;
  seen_count = refl;
  seen_dedup = refl;
  count_key' = refl;
  count_seen = refl;
  count_dedup = refl;
  dedup_key = refl;
  dedup_seen = refl;
  dedup_count = refl;
}

-- the window after the first alert
abbrev after : View
after = (correlate memory call empty).1

correlate-counted_example :
    ((correlate memory call empty).0 ≡ counted memory call empty)
    × (total_count memory call (correlate memory call empty).1 ≡ total_count memory call empty + 1)
    × ((correlate memory call empty).1.lists "corr:10.0.0.5"
        ≡ take 100 ("{}" ∷ empty.lists "corr:10.0.0.5"))
    × (current_max memory call (correlate memory call empty).1
        ≡ max (current_max memory call empty) 75)
unfolding is_dup zmember
correlate-counted_example = correlate-counted memory call empty separate (omega arith) refl

correlate-correlate_example :
    correlate memory call (correlate memory call empty).1
    ≡ (refused, (correlate memory call empty).1)
correlate-correlate_example = correlate-correlate memory call empty refl refl (omega arith)

rollback-correlate_example :
    SameWindow call (rollback memory call (correlate memory call empty).1) empty
    × ((rollback memory call (correlate memory call empty).1).nums "dedup:10.0.0.5" ≡ none)
unfolding is_dup zmember
rollback-correlate_example =
    rollback-correlate memory call empty separate (omega arith) refl refl refl (omega arith)
      (omega arith)

ttls-correlate_example : (correlate memory second after).1.ttls "corr:10.0.0.5" ≡ some 300
unfolding correlate count_alert remember push_alert bump_count note_max dedup_window arm cap_seen
    is_dup is_incident view_zadd zinsert zwithout zmember view_expire view_lpush view_ltrim
    view_incr view_set view_zpop
ttls-correlate_example =
    ttls-correlate memory second after "corr:10.0.0.5" IsSeparate-second refl refl
