-- ===== src/Correlation/Window.antt =====
-- What the parts of the scripts leave in the view, key by key.
use ai_cyber_threat_detector.Common.{
  ℕ, ◌+◌, ◌≡◌, false, some, List, ◌∷◌, String, ltb, str_eq, if◌then◌else◌, length, take, or_else,
  arith, eq_refl, eq_iff, ◌∙◌, Bool-cases, inl, inr,
}
use ai_cyber_threat_detector.Redis.{
  View, zinsert, zwithout, view_zadd, view_zpop, view_expire, view_lpush, view_ltrim, view_incr,
  view_set, tail_of,
}
use ai_cyber_threat_detector.Redis.Memory.{memory}
use ai_cyber_threat_detector.Correlation.Scripts.{
  Call, seen_key, count_key, arm, cap_seen, remember, push_alert, bump_count, note_max, max_seen,
}

module _ (k : String) (w : ℕ) (v : View) where
  lists-arm : (j : String) → (arm memory k w v).lists j ≡ v.lists j
  unfolding arm view_expire
  lists-arm j = ground arith

  zsets-arm : (j : String) → (arm memory k w v).zsets j ≡ v.zsets j
  unfolding arm view_expire
  zsets-arm j = ground arith

  nums-arm : (j : String) → (arm memory k w v).nums j ≡ v.nums j
  unfolding arm view_expire
  nums-arm j = ground arith

  -- an expiry that stands is not extended
  pub ttls-arm :
      (j : String)
      → (arm memory k w v).ttls j ≡ (if str_eq k j then some (or_else (v.ttls k) w) else v.ttls j)
  unfolding arm view_expire
  ttls-arm j = ground (arith, eq_iff k j)

  lists-cap_seen : (j : String) → (cap_seen memory k v).lists j ≡ v.lists j
  unfolding cap_seen view_zpop
  lists-cap_seen j = ground arith

  nums-cap_seen : (j : String) → (cap_seen memory k v).nums j ≡ v.nums j
  unfolding cap_seen view_zpop
  nums-cap_seen j = ground arith

  zsets-cap_seen :
      (cap_seen memory k v).zsets k
      ≡ (if ltb max_seen (length (v.zsets k)) then tail_of (v.zsets k) else v.zsets k)
  unfolding cap_seen view_zpop
  zsets-cap_seen = ground (arith, eq_refl k)

ruleset arm_laws = (lists-arm, zsets-arm, nums-arm, ttls-arm, eq_refl)

module _ (c : Call) (v : View) where
  pub lists-push_alert :
      (push_alert memory c v).lists c.key_name ≡ take 100 (c.alert_json ∷ v.lists c.key_name)
  unfolding push_alert view_lpush view_ltrim
  lists-push_alert = simp arm_laws

  pub lists-push_alert_at :
      (j : String)
      → (push_alert memory c v).lists j
        ≡ (if str_eq c.key_name j then take 100 (c.alert_json ∷ v.lists c.key_name) else v.lists j)
  unfolding push_alert view_lpush view_ltrim
  lists-push_alert_at j = elim (Bool-cases (str_eq c.key_name j)) [
    | inl e ↦ simp (arm_laws, e)
    | inr e ↦ simp (arm_laws, e)
  ]

  pub zsets-push_alert : (j : String) → (push_alert memory c v).zsets j ≡ v.zsets j
  unfolding push_alert view_lpush view_ltrim
  zsets-push_alert j = simp arm_laws

  pub nums-push_alert : (j : String) → (push_alert memory c v).nums j ≡ v.nums j
  unfolding push_alert view_lpush view_ltrim
  nums-push_alert j = simp arm_laws

  pub ttls-push_alert :
      (j : String)
      → (push_alert memory c v).ttls j
        ≡ (if str_eq c.key_name j then some (or_else (v.ttls c.key_name) c.window) else v.ttls j)
  unfolding push_alert view_lpush view_ltrim
  ttls-push_alert j = simp arm_laws

  pub lists-bump_count : (j : String) → (bump_count memory c v).lists j ≡ v.lists j
  unfolding bump_count view_incr
  lists-bump_count j = simp arm_laws

  pub zsets-bump_count : (j : String) → (bump_count memory c v).zsets j ≡ v.zsets j
  unfolding bump_count view_incr
  zsets-bump_count j = simp arm_laws

  pub nums-bump_count :
      (j : String)
      → (bump_count memory c v).nums j ≡ (
          if str_eq (count_key c.key_name) j
          then some (or_else (v.nums (count_key c.key_name)) 0 + 1)
          else v.nums j)
  unfolding bump_count view_incr
  nums-bump_count j = simp arm_laws

  pub ttls-bump_count :
      (j : String)
      → (bump_count memory c v).ttls j ≡ (
          if str_eq (count_key c.key_name) j
          then some (or_else (v.ttls (count_key c.key_name)) c.window)
          else v.ttls j)
  unfolding bump_count view_incr
  ttls-bump_count j = simp arm_laws

  pub lists-note_max : (j : String) → (note_max memory c v).lists j ≡ v.lists j
  unfolding note_max view_set
  lists-note_max j = ground arith

  pub zsets-note_max : (j : String) → (note_max memory c v).zsets j ≡ v.zsets j
  unfolding note_max view_set
  zsets-note_max j = ground arith

  abbrev added : View
  added = view_zadd (seen_key c.key_name) (length (v.zsets (seen_key c.key_name))) c.alert_id v

  pub lists-remember : (j : String) → (remember memory c v).lists j ≡ v.lists j
  unfolding remember view_zadd
  lists-remember j = lists-arm _ _ _ j ∙ lists-cap_seen _ c.window added j

  pub nums-remember : (j : String) → (remember memory c v).nums j ≡ v.nums j
  unfolding remember view_zadd
  nums-remember j = nums-arm _ _ _ j ∙ nums-cap_seen _ c.window added j

  -- the seen set once the id is in, before the cap
  abbrev pub seen_with : List (ℕ × String)
  seen_with =
      zinsert (length (v.zsets (seen_key c.key_name)), c.alert_id)
        (zwithout c.alert_id (v.zsets (seen_key c.key_name)))

  pub zsets-remember :
      (remember memory c v).zsets (seen_key c.key_name)
      ≡ (if ltb max_seen (length seen_with) then tail_of seen_with else seen_with)
  unfolding remember view_zadd
  zsets-remember = zsets-arm _ _ _ _ ∙ zsets-cap_seen _ c.window added ∙ simp eq_refl

  pub zsets-remember_at :
      (j : String)
      → str_eq (seen_key c.key_name) j ≡ false
      → (remember memory c v).zsets j ≡ v.zsets j
  unfolding remember view_zadd cap_seen view_zpop
  zsets-remember_at j h = zsets-arm _ _ _ _ ∙ ground arith
