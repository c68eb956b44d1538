-- ===== src/Correlation/Expiry.antt =====
-- The window of a source does not slide: a call never extends an expiry that stands.
use ai_cyber_threat_detector.Common.{
  ℕ, ◌<◌, ◌≡◌, refl, true, Option, some, List, [], ◌∷◌, String, ltb, str_eq, length, arith, eq_iff,
  Bool-cases, inl, inr, not, ◌&&◌, ◌||◌,
}
use ai_cyber_threat_detector.Redis.{View, Redis, view_zadd, view_zpop, view_set, kept, tail_of}
use ai_cyber_threat_detector.Redis.Memory.{memory}
use ai_cyber_threat_detector.Correlation.Keys.{IsSeparate}
use ai_cyber_threat_detector.Correlation.Scripts.{
  Call, is_dup, cap_seen, remember, push_alert, bump_count, note_max, dedup_window, count_alert,
  correlate, current_max, max_seen, seen_key, count_key,
}
use ai_cyber_threat_detector.Correlation.Effects.{view-correlate}
use ai_cyber_threat_detector.Correlation.Window.{
  ttls-arm, ttls-push_alert, ttls-bump_count, nums-remember,
}
use ai_cyber_threat_detector.Correlation.Counting.{max-after}

kept_long : (z : List (ℕ × String)) (o : Option ℕ) → 1 < length z → kept (tail_of z) o ≡ o
kept_long [] o h = absurd (omega arith)
kept_long (e ∷ []) o h = absurd (omega arith)
kept_long (e ∷ f ∷ z) o h = refl

module _ (j : String) {t : ℕ} where
  stays_cap_seen :
      (k : String) (v : View) → v.ttls j ≡ some t → (cap_seen memory k v).ttls j ≡ some t
  unfolding cap_seen view_zpop
  stays_cap_seen k v h = elim (Bool-cases (ltb max_seen (length (v.zsets k)))) [
    | inl over ↦
        rw (over, kept_long (v.zsets k) (v.ttls k) (ground arith)) (ground (arith, eq_iff k j))
    | inr fits ↦ rw fits h
  ]

  stays_remember : (c : Call) (v : View) → v.ttls j ≡ some t → (remember memory c v).ttls j ≡ some t
  unfolding remember
  stays_remember c v h =
      let n = length (v.zsets (seen_key c.key_name)) in
      let added = view_zadd (seen_key c.key_name) n c.alert_id v in
      ground (
        arith,
        ttls-arm (seen_key c.key_name) c.window (cap_seen memory (seen_key c.key_name) added) j,
        stays_cap_seen (seen_key c.key_name) added (unfold view_zadd in h),
        eq_iff (seen_key c.key_name) j,
      )

  stays_note_max :
      (c : Call) (v : View)
      → ((ltb 0 (current_max memory c v) && ltb 0 t) || not (str_eq c.dedup_name j)) ≡ true
      → v.ttls j ≡ some t
      → (note_max memory c v).ttls j ≡ some t
  unfolding note_max dedup_window view_set
  stays_note_max c v other h = ground (arith, eq_iff c.dedup_name j)

  stays_count_alert :
      (c : Call) (v : View)
      → IsSeparate c
      → ((ltb 0 (current_max memory c v) && ltb 0 t) || not (str_eq c.dedup_name j)) ≡ true
      → v.ttls j ≡ some t
      → (count_alert memory c v).1.ttls j ≡ some t
  unfolding count_alert
  stays_count_alert c v apart other h =
      let pushed = push_alert memory c v in
      let first : pushed.ttls j ≡ some t =
        ground (arith, ttls-push_alert c v j, eq_iff c.key_name j) in
      let second : (bump_count memory c pushed).ttls j ≡ some t =
        ground (arith, ttls-bump_count c pushed j, eq_iff (count_key c.key_name) j) in
      stays_note_max c (bump_count memory c pushed) (rw (max-after c v apart) other) second

  stays-memory :
      (c : Call) (v : View)
      → IsSeparate c
      → ((ltb 0 (current_max memory c v) && ltb 0 t) || not (str_eq c.dedup_name j)) ≡ true
      → v.ttls j ≡ some t
      → (correlate memory c v).1.ttls j ≡ some t
  unfolding correlate
  stays-memory c v apart other h = elim (Bool-cases (str_eq c.alert_id "")) [
    | inl e ↦ rw e (stays_count_alert c v apart other h)
    | inr e ↦ elim (Bool-cases (is_dup memory c v && not c.is_replay)) [
      | inl old ↦ rw (e, old) h
      | inr new ↦
          rw (e, new)
            (stays_count_alert c (remember memory c v) apart
              (rw (nums-remember c v c.dedup_name) other) (stays_remember c v h))
    ]
  ]

-- If the four keys of the window differ, no call extends the time that the list, the seen set and the count of the window have left: a key whose TTL reads
-- `t` seconds still has `t` after the call. The same holds for the dedup key if it holds a maximum and its TTL reads at
-- least one second.
pub ttls-correlate :
    (r : Redis) (c : Call) (s : Redis.State r) (j : String) {t : ℕ}
    → IsSeparate c
    → ((ltb 0 (current_max r c s) && ltb 0 t) || not (str_eq c.dedup_name j)) ≡ true
    → (Redis.view r s).ttls j ≡ some t
    → (Redis.view r (correlate r c s).1).ttls j ≡ some t
ttls-correlate r c s j apart other h =
    rw ((view-correlate r c s).1) (stays-memory j c (Redis.view r s) apart other h)
