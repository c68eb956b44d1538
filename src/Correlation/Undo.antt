-- ===== src/Correlation/Undo.antt =====
-- What each part of ROLLBACK_LUA in inference/correlation.py leaves in the view.
use ai_cyber_threat_detector.Common.{
  ◌-◌, ◌≡◌, refl, none, List, [], ◌∷◌, String, ltb, str_eq, if◌then◌else◌, length, arith, eq_refl,
  ◌∙◌,
}
use ai_cyber_threat_detector.Redis.{
  View, zwithout, lwithout, lcount, view_zrem, view_lrem, view_decr, view_del,
}
use ai_cyber_threat_detector.Redis.Memory.{memory}
use ai_cyber_threat_detector.Correlation.Keys.{IsSeparate}
use ai_cyber_threat_detector.Correlation.Scripts.{
  Call, seen_key, count_key, forget_id, lower_count, forget_alert, rollback, total_count,
}

length-lwithout :
    (x : String) (l : List String) → ltb (length (lwithout x l)) (length l) ≡ ltb 0 (lcount x l)
unfolding lwithout lcount
length-lwithout x [] = refl
length-lwithout x (w ∷ l) = ground (arith, length-lwithout x l)

module _ (c : Call) (v : View) where
  lists-forget_id : (j : String) → (forget_id memory c v).lists j ≡ v.lists j
  unfolding forget_id view_zrem
  lists-forget_id j = ground arith

  nums-forget_id : (j : String) → (forget_id memory c v).nums j ≡ v.nums j
  unfolding forget_id view_zrem
  nums-forget_id j = ground arith

  zsets-forget_id : (forget_id memory c v).zsets (seen_key c.key_name) ≡ (
      if str_eq c.alert_id ""
      then v.zsets (seen_key c.key_name)
      else zwithout c.alert_id (v.zsets (seen_key c.key_name)))
  unfolding forget_id view_zrem
  zsets-forget_id = ground (arith, eq_refl (seen_key c.key_name))

  lists-lower_count : (j : String) → (lower_count memory c v).lists j ≡ v.lists j
  unfolding lower_count view_decr view_del
  lists-lower_count j = ground arith

  zsets-lower_count : (j : String) → (lower_count memory c v).zsets j ≡ v.zsets j
  unfolding lower_count view_decr view_del
  zsets-lower_count j = ground arith

  -- never below zero: a count of one is deleted, and no count stays none
  total-lower_count : total_count memory c (lower_count memory c v) ≡ total_count memory c v - 1
  unfolding lower_count view_decr view_del
  total-lower_count = ground (arith, eq_refl (count_key c.key_name))

module _ (c : Call) (v : View) where
  abbrev removed : View
  removed = view_lrem c.key_name c.alert_json v

  lists-forget_alert : (forget_alert memory c v).lists c.key_name ≡ (
      if str_eq c.alert_json ""
      then v.lists c.key_name
      else lwithout c.alert_json (v.lists c.key_name))
  unfolding forget_alert view_lrem
  lists-forget_alert = ground (arith, eq_refl c.key_name, lists-lower_count c removed c.key_name)

  zsets-forget_alert : (j : String) → (forget_alert memory c v).zsets j ≡ v.zsets j
  unfolding forget_alert view_lrem
  zsets-forget_alert j = ground (arith, zsets-lower_count c removed j)

  -- the count falls by one exactly if the window had the alert
  total-forget_alert : total_count memory c (forget_alert memory c v) ≡ (
      if str_eq c.alert_json ""
      then total_count memory c v
      else if ltb 0 (lcount c.alert_json (v.lists c.key_name))
      then total_count memory c v - 1
      else total_count memory c v)
  unfolding forget_alert view_lrem
  total-forget_alert = ground (
    arith,
    eq_refl c.key_name,
    total-lower_count c removed,
    length-lwithout c.alert_json (v.lists c.key_name),
  )

module _ (c : Call) (v : View) where
  pub lists-rollback : (rollback memory c v).lists c.key_name ≡ (
      if str_eq c.alert_json ""
      then v.lists c.key_name
      else lwithout c.alert_json (v.lists c.key_name))
  unfolding rollback view_del
  lists-rollback = lists-forget_alert c (forget_id memory c v) ∙ simp lists-forget_id

  pub zsets-rollback : (rollback memory c v).zsets (seen_key c.key_name) ≡ (
      if str_eq c.alert_id ""
      then v.zsets (seen_key c.key_name)
      else zwithout c.alert_id (v.zsets (seen_key c.key_name)))
  unfolding rollback view_del
  zsets-rollback = zsets-forget_alert c (forget_id memory c v) _ ∙ zsets-forget_id c v

  pub total-rollback :
      IsSeparate c
      → total_count memory c (rollback memory c v) ≡ (
          if str_eq c.alert_json ""
          then total_count memory c v
          else if ltb 0 (lcount c.alert_json (v.lists c.key_name))
          then total_count memory c v - 1
          else total_count memory c v)
  unfolding rollback view_del
  total-rollback apart =
      simp apart.dedup_count
        (total-forget_alert c (forget_id memory c v) ∙ simp (lists-forget_id, nums-forget_id))

  pub dedup-rollback : (rollback memory c v).nums c.dedup_name ≡ none
  unfolding rollback view_del
  dedup-rollback = simp eq_refl
