-- ===== src/Correlation/Effects.antt =====
-- Every Redis runs the scripts as the one that keeps its view itself.
use ai_cyber_threat_detector.Common.{◌≡◌, refl, String, ℕ, arith}
use ai_cyber_threat_detector.Redis.{Redis}
use ai_cyber_threat_detector.Redis.Memory.{memory}
use ai_cyber_threat_detector.Correlation.Scripts.{
  Call, seen_key, count_key, arm, is_dup, cap_seen, remember, push_alert, bump_count, note_max,
  dedup_window, count_alert, correlate, forget_id, lower_count, forget_alert, rollback,
}

module _ (r : Redis) where
  open r use {
    State, view, view-zadd, view-zpop, view-zrem, view-expire, view-lpush, view-ltrim, view-lrem,
    view-incr, view-decr, view-set_ex, view-del,
  }

  view-arm : (k : String) (w : ℕ) (s : State) → view (arm r k w s) ≡ arm memory k w (view s)
  unfolding arm
  view-arm k w s = ground (arith, view-expire k w s)

  view-cap_seen : (k : String) (s : State) → view (cap_seen r k s) ≡ cap_seen memory k (view s)
  unfolding cap_seen
  view-cap_seen k s = ground (arith, view-zpop k s)

  view-remember : (c : Call) (s : State) → view (remember r c s) ≡ remember memory c (view s)
  unfolding remember
  view-remember c s = rw (view-arm, view-cap_seen, view-zadd)

  view-push_alert : (c : Call) (s : State) → view (push_alert r c s) ≡ push_alert memory c (view s)
  unfolding push_alert
  view-push_alert c s = simp (view-arm, view-ltrim, view-lpush)

  view-bump_count : (c : Call) (s : State) → view (bump_count r c s) ≡ bump_count memory c (view s)
  unfolding bump_count
  view-bump_count c s = simp (view-arm, view-incr)

  view-note_max : (c : Call) (s : State) → view (note_max r c s) ≡ note_max memory c (view s)
  unfolding note_max dedup_window
  view-note_max c s = ground (
    arith,
    view-set_ex c.dedup_name c.severity_score (dedup_window r c s) s,
    view-set_ex c.dedup_name c.severity_score c.window s,
  )

  pub view-count_alert :
      (c : Call) (s : State)
      → ((count_alert r c s).0 ≡ (count_alert memory c (view s)).0)
        × (view (count_alert r c s).1 ≡ (count_alert memory c (view s)).1)
  unfolding count_alert
  view-count_alert c s = simp (view-note_max, view-bump_count, view-push_alert) (refl, refl)

  is_dup-view : (c : Call) (s : State) → is_dup r c s ≡ is_dup memory c (view s)
  unfolding is_dup
  is_dup-view c s = refl

  -- Whatever the Redis, CORRELATE_LUA returns and leaves what it does on the view alone.
  pub view-correlate :
      (c : Call) (s : State)
      → ((correlate r c s).0 ≡ (correlate memory c (view s)).0)
        × (view (correlate r c s).1 ≡ (correlate memory c (view s)).1)
  unfolding correlate
  view-correlate c s = ground (
    arith,
    is_dup-view c s,
    view-count_alert c s,
    view-count_alert c (remember r c s),
    view-remember c s,
  )

  view-forget_id : (c : Call) (s : State) → view (forget_id r c s) ≡ forget_id memory c (view s)
  unfolding forget_id
  view-forget_id c s = ground (arith, view-zrem (seen_key c.key_name) c.alert_id s)

  view-lower_count :
      (c : Call) (s : State) → view (lower_count r c s) ≡ lower_count memory c (view s)
  unfolding lower_count
  view-lower_count c s =
      ground (arith, view-decr (count_key c.key_name) s, view-del (count_key c.key_name) s)

  view-forget_alert :
      (c : Call) (s : State) → view (forget_alert r c s) ≡ forget_alert memory c (view s)
  unfolding forget_alert
  view-forget_alert c s = ground (
    arith,
    view-lrem c.key_name c.alert_json s,
    view-lower_count c (r.lrem c.key_name c.alert_json s),
  )

  -- Whatever the Redis, ROLLBACK_LUA leaves what it does on the view alone.
  pub view-rollback : (c : Call) (s : State) → view (rollback r c s) ≡ rollback memory c (view s)
  unfolding rollback
  view-rollback c s = simp (view-del, view-forget_alert, view-forget_id)
