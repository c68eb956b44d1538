-- ===== src/Correlation/Scripts.antt =====
-- CORRELATE_LUA and ROLLBACK_LUA of inference/correlation.py, over a Redis that is a parameter. The
-- weights are whole, so `tonumber` and `tostring` are left out; `redis.call` returns are reads of the view.
use Prim.Native.String.{◌++◌}
use ai_cyber_threat_detector.Common.{
  ℕ, ◌%◌, Bool, not, ◌&&◌, ◌||◌, none, some, List, [], String, ltb, leb, ◌==◌, str_eq,
  if◌then◌else◌, length, or_else,
}
use ai_cyber_threat_detector.Redis.{Redis, zmember}

abbrev pub max_seen : ℕ
max_seen = 5000

-- KEYS and ARGV of CORRELATE_LUA; `safe_threat` is passed and never read
pub record Call : Type 0 where
  pub key_name : String
  pub dedup_name : String
  pub alert_json : String
  pub window : ℕ
  pub severity_score : ℕ
  pub alert_id : String
  pub is_replay : Bool

abbrev pub seen_key : String → String
seen_key key_name = key_name ++ ":seen"

abbrev pub count_key : String → String
count_key key_name = key_name ++ ":cnt"

-- the condition under which an incident is raised
unfoldable pub is_incident : ℕ → ℕ → ℕ → Bool
is_incident total_count severity_score current_max =
    leb 2 total_count
    && (current_max == 0
        || ltb current_max severity_score
        || total_count == 2
        || (ltb 2 total_count && total_count % 5 == 0))

-- what CORRELATE_LUA returns
pub record Outcome : Type 0 where
  pub total_count : ℕ
  pub incident : ℕ
  pub alerts_snapshot : List String

abbrev pub refused : Outcome
refused = record { total_count = 0; incident = 0; alerts_snapshot = [] }

module _ (r : Redis) where
  open r use {State, view, zadd, zpop, zrem, expire, lpush, ltrim, lrem, incr, decr, set_ex, del}

  -- `if redis.call('ttl', key) < 0 then redis.call('expire', key, window) end`
  unfoldable pub arm : String → ℕ → State → State
  arm key window s = elim ((view s).ttls key) [ none ↦ expire key window s | some _ ↦ s ]

  unfoldable pub is_dup : Call → State → Bool
  is_dup c s = zmember c.alert_id ((view s).zsets (seen_key c.key_name))

  unfoldable pub cap_seen : String → State → State
  cap_seen key s = if ltb max_seen (length ((view s).zsets key)) then zpop key s else s

  -- the rest of the block under `if alert_id ~= ""`
  unfoldable pub remember : Call → State → State
  remember c s =
      let seen = seen_key c.key_name in
      let insertion_rank = length ((view s).zsets seen) in
      arm seen c.window (cap_seen seen (zadd seen insertion_rank c.alert_id s))

  unfoldable pub push_alert : Call → State → State
  push_alert c s = arm c.key_name c.window (ltrim c.key_name 100 (lpush c.key_name c.alert_json s))

  unfoldable pub bump_count : Call → State → State
  bump_count c s = arm (count_key c.key_name) c.window (incr (count_key c.key_name) s)

  abbrev pub current_max : Call → State → ℕ
  current_max c s = or_else ((view s).nums c.dedup_name) 0

  -- the time left of the key when the maximum is raised, so that the window does not grow
  unfoldable pub dedup_window : Call → State → ℕ
  dedup_window c s = elim ((view s).ttls c.dedup_name) [
    | none ↦ c.window
    | some ttl_dedup ↦ if ltb 0 ttl_dedup then ttl_dedup else c.window
  ]

  unfoldable pub note_max : Call → State → State
  note_max c s =
      if current_max c s == 0
      then set_ex c.dedup_name c.severity_score c.window s
      else if ltb (current_max c s) c.severity_score
      then set_ex c.dedup_name c.severity_score (dedup_window c s) s
      else s

  abbrev pub total_count : Call → State → ℕ
  total_count c s = or_else ((view s).nums (count_key c.key_name)) 0

  -- from the push to the end; `s` is the state after the replay defence
  unfoldable pub count_alert : Call → State → Outcome × State
  count_alert c s =
      let s' = bump_count c (push_alert c s) in
      let raised = is_incident (total_count c s') c.severity_score (current_max c s') in
      (
        record {
          total_count = total_count c s';
          incident = if raised then 1 else 0;
          alerts_snapshot = if raised then (view (note_max c s')).lists c.key_name else [];
        },
        note_max c s',
      )

  -- CORRELATE_LUA
  unfoldable pub correlate : Call → State → Outcome × State
  correlate c s =
      if str_eq c.alert_id ""
      then count_alert c s
      else if is_dup c s && not c.is_replay
      then (refused, s)
      else count_alert c (remember c s)

  unfoldable pub forget_id : Call → State → State
  forget_id c s = if str_eq c.alert_id "" then s else zrem (seen_key c.key_name) c.alert_id s

  unfoldable pub lower_count : Call → State → State
  lower_count c s =
      if ltb 1 (total_count c s)
      then decr (count_key c.key_name) s
      else if total_count c s == 1
      then del (count_key c.key_name) s
      else s

  -- `lrem` returned how many entries it removed: one, if the list had it
  unfoldable pub forget_alert : Call → State → State
  forget_alert c s =
      let s' = lrem c.key_name c.alert_json s in
      if str_eq c.alert_json ""
      then s
      else if ltb (length ((view s').lists c.key_name)) (length ((view s).lists c.key_name))
      then lower_count c s'
      else s'

  -- ROLLBACK_LUA
  unfoldable pub rollback : Call → State → State
  rollback c s = del c.dedup_name (forget_alert c (forget_id c s))
