-- ===== src/Correlation/Rollback.antt =====
-- ROLLBACK_LUA as a compensation: it undoes the call before it, and a second rollback finds nothing.
use ai_cyber_threat_detector.Common.{
  ℕ, ◌-◌, ◌≤◌, ◌<◌, ◌≡◌, refl, true, false, none, List, [], ◌∷◌, String, ltb, str_eq, length, arith,
  eq_refl, ◌∙◌, take_of_length-le,
}
use ai_cyber_threat_detector.Redis.{View, Redis, zwithout, zmember, lwithout, lcount}
use ai_cyber_threat_detector.Redis.Memory.{memory}
use ai_cyber_threat_detector.Correlation.Keys.{IsSeparate}
use ai_cyber_threat_detector.Correlation.Scripts.{
  Call, seen_key, is_dup, correlate, rollback, total_count, max_seen,
}
use ai_cyber_threat_detector.Correlation.Effects.{view-correlate, view-rollback}
use ai_cyber_threat_detector.Correlation.Seen.{zwithout_absent, zwithout-zinsert}
use ai_cyber_threat_detector.Correlation.Counting.{correlate-memory-counted}
use ai_cyber_threat_detector.Correlation.Replay.{zsets-correlate}
use ai_cyber_threat_detector.Correlation.Undo.{
  lists-rollback, zsets-rollback, total-rollback, dedup-rollback,
}

-- what of a window the scripts decide by
pub record SameWindow (c : Call) (v w : View) : Type 0 where
  pub alerts : v.lists c.key_name ≡ w.lists c.key_name
  pub seen : v.zsets (seen_key c.key_name) ≡ w.zsets (seen_key c.key_name)
  pub total : total_count memory c v ≡ total_count memory c w

lcount_head : (x : String) (l : List String) → ltb 0 (lcount x (x ∷ l)) ≡ true
unfolding lcount
lcount_head x l = ground (arith, eq_refl x)

lwithout_head : (x : String) (l : List String) → lwithout x (x ∷ l) ≡ l
unfolding lwithout
lwithout_head x l = ground (arith, eq_refl x)

lwithout_absent : (x : String) (l : List String) → lcount x l ≡ 0 → lwithout x l ≡ l
unfolding lwithout lcount
lwithout_absent x [] h = refl
lwithout_absent x (w ∷ l) h = ground (arith, lwithout_absent x l)

lcount-lwithout : (x : String) (l : List String) → lcount x (lwithout x l) ≡ lcount x l - 1
unfolding lwithout lcount
lcount-lwithout x [] = refl
lcount-lwithout x (w ∷ l) = ground (arith, lcount-lwithout x l)

zmember-zwithout : (m : String) (z : List (ℕ × String)) → zmember m (zwithout m z) ≡ false
unfolding zmember zwithout
zmember-zwithout m [] = refl
zmember-zwithout m ((n, j) ∷ z) = ground (arith, zmember-zwithout m z)

module _ (c : Call) (v : View) (apart : IsSeparate c) where
  rollback_twice-memory :
      lcount c.alert_json (v.lists c.key_name) ≤ 1
      → SameWindow c (rollback memory c (rollback memory c v)) (rollback memory c v)
  rollback_twice-memory h =
      let w = rollback memory c v in
      let json = c.alert_json in
      let l = v.lists c.key_name in
      record {
        alerts = ground (
          arith,
          lists-rollback c w,
          lists-rollback c v,
          lcount-lwithout json l,
          lwithout_absent json (lwithout json l),
        );
        seen =
            let z = v.zsets (seen_key c.key_name) in
            ground (
              arith,
              zsets-rollback c w,
              zsets-rollback c v,
              zmember-zwithout c.alert_id z,
              zwithout_absent c.alert_id (zwithout c.alert_id z),
            );
        total = ground (
          arith,
          total-rollback c w apart,
          total-rollback c v apart,
          lists-rollback c v,
          lcount-lwithout json l,
        );
      }

  undone-memory :
      0 < c.severity_score
      → str_eq c.alert_id "" ≡ false
      → str_eq c.alert_json "" ≡ false
      → is_dup memory c v ≡ false
      → length (v.zsets (seen_key c.key_name)) < max_seen
      → length (v.lists c.key_name) < 100
      → SameWindow c (rollback memory c (correlate memory c v).1) v
  unfolding is_dup
  undone-memory pos id json fresh room short =
      let l = v.lists c.key_name in
      let z = v.zsets (seen_key c.key_name) in
      let (out, total, alerts, top) = correlate-memory-counted c v apart pos (ground arith) in
      let w = (correlate memory c v).1 in
      let whole = take_of_length-le 100 (c.alert_json ∷ l) short in
      record {
        alerts = lists-rollback c w ∙ rw json (rw (alerts, whole) (lwithout_head c.alert_json l));
        seen =
            zsets-rollback c w
            ∙ rw id (
                rw (zsets-correlate c v id fresh room)
                  (zwithout-zinsert (length z) c.alert_id z fresh));
        total =
            total-rollback c w apart
            ∙ rw json (rw (alerts, whole, lcount_head) (omega (arith, total)));
      }

module _ (r : Redis) (c : Call) (s : Redis.State r) (apart : IsSeparate c) where
  -- A rollback undoes the call before it: if the alert has an id that had not been seen and a non-empty text,
  -- and neither the seen set nor the list was full, then afterwards the list of alerts, the
  -- seen set and the count are those from before the call, and the dedup key is gone.
  pub rollback-correlate :
      0 < c.severity_score
      → str_eq c.alert_id "" ≡ false
      → str_eq c.alert_json "" ≡ false
      → is_dup r c s ≡ false
      → length ((Redis.view r s).zsets (seen_key c.key_name)) < max_seen
      → length ((Redis.view r s).lists c.key_name) < 100
      → SameWindow c (Redis.view r (rollback r c (correlate r c s).1)) (Redis.view r s)
        × ((Redis.view r (rollback r c (correlate r c s).1)).nums c.dedup_name ≡ none)
  unfolding is_dup
  rollback-correlate pos id json fresh room short =
      rw (view-rollback r c (correlate r c s).1, (view-correlate r c s).1)
        (undone-memory c (Redis.view r s) apart pos id json fresh room short, dedup-rollback c _)

  -- A second rollback of the same call finds nothing to undo, if the list has the alert's text at most once: the
  -- list, the seen set and the count stay as the first rollback left them.
  pub rollback-rollback :
      lcount c.alert_json ((Redis.view r s).lists c.key_name) ≤ 1
      → SameWindow c (Redis.view r (rollback r c (rollback r c s))) (Redis.view r (rollback r c s))
  rollback-rollback h =
      rw (view-rollback r c (rollback r c s), view-rollback r c s)
        (rollback_twice-memory c (Redis.view r s) apart h)
