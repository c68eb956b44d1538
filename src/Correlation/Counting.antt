-- ===== src/Correlation/Counting.antt =====
-- The count, the incident and the snapshot that CORRELATE_LUA returns, from the view before the call.
use ai_cyber_threat_detector.Common.{
  ◌+◌, ◌<◌, ◌≡◌, Bool, true, [], ◌∷◌, String, str_eq, if◌then◌else◌, take, arith, eq_refl, ◌∙◌, not,
  ◌||◌, max,
}
use ai_cyber_threat_detector.Redis.{View, Redis, view_set}
use ai_cyber_threat_detector.Redis.Memory.{memory}
use ai_cyber_threat_detector.Correlation.Keys.{IsSeparate}
use ai_cyber_threat_detector.Correlation.Scripts.{
  Call, Outcome, is_dup, remember, push_alert, bump_count, note_max, count_alert, is_incident,
  total_count, current_max, correlate,
}
use ai_cyber_threat_detector.Correlation.Effects.{view-correlate}
use ai_cyber_threat_detector.Correlation.Window.{
  lists-push_alert, lists-bump_count, lists-note_max, nums-push_alert, nums-bump_count,
  nums-remember, lists-remember,
}

-- the replay defence lets the call through
abbrev pub is_accepted : (r : Redis) → Call → Redis.State r → Bool
is_accepted r c s = str_eq c.alert_id "" || (not (is_dup r c s) || c.is_replay)

-- what a call that is let through returns, in terms of what could be read before it
abbrev pub counted : (r : Redis) → Call → Redis.State r → Outcome
counted r c s =
    let total = total_count r c s + 1 in
    let raised = is_incident total c.severity_score (current_max r c s) in
    record {
      total_count = total;
      incident = if raised then 1 else 0;
      alerts_snapshot =
          if raised then take 100 (c.alert_json ∷ (Redis.view r s).lists c.key_name) else [];
    }

module _ (c : Call) (v : View) (apart : IsSeparate c) where
  abbrev pub after : View
  after = bump_count memory c (push_alert memory c v)

  total-after : total_count memory c after ≡ total_count memory c v + 1
  total-after = simp (nums-bump_count, nums-push_alert, eq_refl)

  pub max-after : current_max memory c after ≡ current_max memory c v
  max-after = simp (nums-bump_count, nums-push_alert, apart.count_dedup)

  lists-after :
      (note_max memory c after).lists c.key_name ≡ take 100 (c.alert_json ∷ v.lists c.key_name)
  lists-after = simp (lists-note_max, lists-bump_count, lists-push_alert)

  pub count_alert-counted : (count_alert memory c v).0 ≡ counted memory c v
  unfolding count_alert
  count_alert-counted = simp (total-after, max-after, lists-after)

  pub total-count_alert :
      total_count memory c (count_alert memory c v).1 ≡ total_count memory c v + 1
  unfolding count_alert note_max view_set
  total-count_alert = ground (arith, apart.dedup_count, total-after)

  pub lists-count_alert :
      (count_alert memory c v).1.lists c.key_name ≡ take 100 (c.alert_json ∷ v.lists c.key_name)
  unfolding count_alert
  lists-count_alert = lists-after

  -- the maximum that the dedup key keeps
  pub max-count_alert :
      0 < c.severity_score
      → current_max memory c (count_alert memory c v).1
        ≡ max (current_max memory c v) c.severity_score
  unfolding count_alert note_max view_set
  max-count_alert h = ground (arith, eq_refl c.dedup_name, max-after)

module _ (c : Call) (v : View) where
  pub counted-remember : counted memory c (remember memory c v) ≡ counted memory c v
  counted-remember = simp (nums-remember, lists-remember)

  pub correlate-memory_accepted :
      is_accepted memory c v ≡ true
      → correlate memory c v
        ≡ count_alert memory c (if str_eq c.alert_id "" then v else remember memory c v)
  unfolding correlate
  correlate-memory_accepted h = ground arith

-- the view with the id remembered, if the call has one
abbrev pub noted : Call → View → View
noted c v = if str_eq c.alert_id "" then v else remember memory c v

module _ (c : Call) (v : View) where
  pub lists-noted : (j : String) → (noted c v).lists j ≡ v.lists j
  lists-noted j = ground (arith, lists-remember c v j)

  pub nums-noted : (j : String) → (noted c v).nums j ≡ v.nums j
  nums-noted j = ground (arith, nums-remember c v j)

  pub correlate-memory-counted :
      IsSeparate c
      → 0 < c.severity_score
      → is_accepted memory c v ≡ true
      → ((correlate memory c v).0 ≡ counted memory c v)
        × (total_count memory c (correlate memory c v).1 ≡ total_count memory c v + 1)
        × ((correlate memory c v).1.lists c.key_name ≡ take 100 (c.alert_json ∷ v.lists c.key_name))
        × (current_max memory c (correlate memory c v).1
            ≡ max (current_max memory c v) c.severity_score)
  correlate-memory-counted apart pos h = rw (correlate-memory_accepted c v h) (
    count_alert-counted c (noted c v) apart ∙ simp (nums-noted, lists-noted),
    total-count_alert c (noted c v) apart ∙ simp nums-noted,
    lists-count_alert c (noted c v) apart ∙ simp lists-noted,
    max-count_alert c (noted c v) apart pos ∙ simp nums-noted,
  )

module _ (r : Redis) (c : Call) (s : Redis.State r) where
  -- A call that the replay defence lets through is counted exactly once: CORRELATE_LUA returns the count
  -- before it plus one, raises an incident exactly by the rule on count and severity, snapshots the
  -- hundred newest alerts with this one in front if it raises, leaves that list and that count in
  -- Redis, and the kept maximum becomes the larger of the old maximum and the alert's weight.
  pub correlate-counted :
      IsSeparate c
      → 0 < c.severity_score
      → is_accepted r c s ≡ true
      → ((correlate r c s).0 ≡ counted r c s)
        × (total_count r c (correlate r c s).1 ≡ total_count r c s + 1)
        × ((Redis.view r (correlate r c s).1).lists c.key_name
            ≡ take 100 (c.alert_json ∷ (Redis.view r s).lists c.key_name))
        × (current_max r c (correlate r c s).1 ≡ max (current_max r c s) c.severity_score)
  unfolding is_dup
  correlate-counted apart pos h =
      let (out, state) = view-correlate r c s in
      rw (out, state) (correlate-memory-counted c (Redis.view r s) apart pos h)
