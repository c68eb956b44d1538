-- ===== src/Correlation/Replay.antt =====
-- The replay defence: the ids that have been seen, and the bounds on what one source can make Redis keep.
use ai_cyber_threat_detector.Common.{
  suc, ◌≤◌, ◌<◌, ◌≡◌, refl, true, false, String, str_eq, length, arith, eq_iff, ◌∙◌, not, ◌&&◌,
  Bool-cases, inl, inr, length-take, ap,
}
use ai_cyber_threat_detector.Redis.{View, Redis, zinsert, zwithout, zmember}
use ai_cyber_threat_detector.Redis.Memory.{memory}
use ai_cyber_threat_detector.Correlation.Scripts.{
  Call, refused, seen_key, is_dup, remember, count_alert, correlate, max_seen,
}
use ai_cyber_threat_detector.Correlation.Effects.{view-correlate}
use ai_cyber_threat_detector.Correlation.Seen.{
  length-zinsert, length-zwithout-le, zmember-zinsert, length-tail_of, zwithout_absent,
}
use ai_cyber_threat_detector.Correlation.Window.{
  zsets-push_alert, zsets-bump_count, zsets-note_max, lists-bump_count, lists-note_max,
  lists-remember, zsets-remember, seen_with, zsets-remember_at, lists-push_alert_at,
}

module _ (c : Call) (v : View) where
  pub zsets-count_alert : (j : String) → (count_alert memory c v).1.zsets j ≡ v.zsets j
  unfolding count_alert
  zsets-count_alert j = simp (zsets-note_max, zsets-bump_count, zsets-push_alert)

  length-seen_with : length (seen_with c v) ≤ suc (length (v.zsets (seen_key c.key_name)))
  length-seen_with =
      let z = v.zsets (seen_key c.key_name) in
      omega (
        arith,
        length-zinsert (length z, c.alert_id) (zwithout c.alert_id z),
        length-zwithout-le c.alert_id z,
      )

  -- an id that has been remembered is a member, unless the cap dropped an entry
  is_dup-remember :
      length (v.zsets (seen_key c.key_name)) < max_seen
      → is_dup memory c (remember memory c v) ≡ true
  unfolding is_dup
  is_dup-remember h =
      let z = v.zsets (seen_key c.key_name) in
      ground (
        arith,
        zsets-remember c v,
        length-seen_with,
        zmember-zinsert (length z) c.alert_id (zwithout c.alert_id z),
      )

  is_dup-count_alert : is_dup memory c (count_alert memory c v).1 ≡ is_dup memory c v
  unfolding is_dup
  is_dup-count_alert = simp zsets-count_alert

module _ (c : Call) (v : View) where
  is_dup-correlate :
      str_eq c.alert_id "" ≡ false
      → length (v.zsets (seen_key c.key_name)) < max_seen
      → is_dup memory c (correlate memory c v).1 ≡ true
  unfolding correlate
  is_dup-correlate id h = elim (Bool-cases (is_dup memory c v && not c.is_replay)) [
    | inl old ↦ rw (id, old) (ground arith)
    | inr new ↦ rw (id, new) (is_dup-count_alert c (remember memory c v) ∙ is_dup-remember c v h)
  ]

module _ (c : Call) (v : View) where
  -- a new id is put in its place, if there is room
  pub zsets-correlate :
      str_eq c.alert_id "" ≡ false
      → zmember c.alert_id (v.zsets (seen_key c.key_name)) ≡ false
      → length (v.zsets (seen_key c.key_name)) < max_seen
      → (correlate memory c v).1.zsets (seen_key c.key_name)
        ≡ zinsert
            (length (v.zsets (seen_key c.key_name)), c.alert_id)
            (v.zsets (seen_key c.key_name))
  unfolding correlate is_dup
  zsets-correlate id fresh room =
      rw (id, fresh)
        (zsets-count_alert c (remember memory c v) _
          ∙ ground (
            arith,
            zsets-remember c v,
            length-seen_with c v,
            zwithout_absent c.alert_id (v.zsets (seen_key c.key_name)),
          ))

refused_again :
    (r : Redis) (c : Call) (s : Redis.State r)
    → str_eq c.alert_id "" ≡ false
    → c.is_replay ≡ false
    → is_dup r c s ≡ true
    → correlate r c s ≡ (refused, s)
unfolding correlate
refused_again r c s id once dup = ground arith

is_dup-view :
    (r : Redis) (c : Call) (s : Redis.State r) → is_dup r c s ≡ is_dup memory c (Redis.view r s)
unfolding is_dup
is_dup-view r c s = refl

module _ (r : Redis) (c : Call) (s : Redis.State r) where
  -- The second of two identical calls with an id, neither marked as a replay, is refused and changes nothing
  -- in Redis, whatever the first one did, as long as the seen set was not full before.
  pub correlate-correlate :
      str_eq c.alert_id "" ≡ false
      → c.is_replay ≡ false
      → length ((Redis.view r s).zsets (seen_key c.key_name)) < max_seen
      → correlate r c (correlate r c s).1 ≡ (refused, (correlate r c s).1)
  correlate-correlate id once room = refused_again r c _ id once (
      is_dup-view r c _
      ∙ ap (is_dup memory c) (view-correlate r c s).1
      ∙ is_dup-correlate c (Redis.view r s) id room)

-- what one window may hold
pub record IsBounded (v : View) : Type 0 where
  pub alerts : (j : String) → length (v.lists j) ≤ 100
  pub seen : (j : String) → length (v.zsets j) ≤ max_seen

module _ (c : Call) (v : View) (h : IsBounded v) where
  remember-IsBounded : IsBounded (remember memory c v)
  remember-IsBounded = record {
    alerts = λ j. rw (lists-remember c v j) (h.alerts j);
    seen = λ j. elim (Bool-cases (str_eq (seen_key c.key_name) j)) [
      | inl e ↦ rw (← (eq_iff (seen_key c.key_name) j).0 e) (
          ground (
            arith,
            zsets-remember c v,
            length-seen_with c v,
            h.seen (seen_key c.key_name),
            length-tail_of (seen_with c v) {n = max_seen},
          ))
      | inr e ↦ rw (zsets-remember_at c v j e) (h.seen j)
    ];
  }

  count_alert-IsBounded : IsBounded (count_alert memory c v).1
  unfolding count_alert
  count_alert-IsBounded = record {
    alerts = λ j.
        rw (lists-note_max, lists-bump_count, lists-push_alert_at)
          (elim (Bool-cases (str_eq c.key_name j)) [
            | inl e ↦ rw e (omega (arith, length-take 99 (v.lists c.key_name)))
            | inr e ↦ rw e (h.alerts j)
          ]);
    seen = λ j. rw (zsets-note_max, zsets-bump_count, zsets-push_alert) (h.seen j);
  }

bounded : (c : Call) (v : View) → IsBounded v → IsBounded (correlate memory c v).1
unfolding correlate
bounded c v h = elim (Bool-cases (str_eq c.alert_id "")) [
  | inl e ↦ rw e (count_alert-IsBounded c v h)
  | inr e ↦ elim (Bool-cases (is_dup memory c v && not c.is_replay)) [
    | inl old ↦ rw (e, old) h
    | inr new ↦
        rw (e, new) (count_alert-IsBounded c (remember memory c v) (remember-IsBounded c v h))
  ]
]

-- No call makes Redis keep more than a hundred alerts or MAX_SEEN ids of a window, whatever arrives.
pub correlate-IsBounded :
    (r : Redis) (c : Call) (s : Redis.State r)
    → IsBounded (Redis.view r s)
    → IsBounded (Redis.view r (correlate r c s).1)
correlate-IsBounded r c s h = rw ((view-correlate r c s).1) (bounded c (Redis.view r s) h)
