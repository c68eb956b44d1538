-- ===== src/DataAccess/Partition.antt =====
-- The grouping of shared/data_access.py loses no alert.
use mathlib.Core.List.{Memᴰ}
use ai_cyber_threat_detector.Common.{
  ℕ, ◌+◌, ◌≡◌, refl, true, List, [], ◌∷◌, String, is_some, length, or_else, Option-cases, inl, inr,
  arith, eq_iff, ◌⊎◌, ap, sym,
}
use ai_cyber_threat_detector.Common.Dict
use ai_cyber_threat_detector.Common.Dict.{Dict, get-put, tally, tally-put, at_key}
use ai_cyber_threat_detector.DataAccess.Polling.{Alert}
use ai_cyber_threat_detector.DataAccess.Incidents.{
  Group, source_of, new_group, add_to_group, incidents_by_src,
}

abbrev pub count_of : Group → ℕ
count_of inc = inc.alert_count

count-add_to_group : (a : Alert) (inc : Group) → count_of (add_to_group a inc) ≡ count_of inc + 1
unfolding add_to_group
count-add_to_group a inc = refl

module _ (now : String) where
  abbrev put_alert : Alert → Dict Group → Dict Group
  put_alert a groups =
      Dict.put groups (source_of a)
        (add_to_group a (or_else (Dict.get groups (source_of a)) (new_group now a)))

  -- one alert more, whether it opens a group or joins one
  tally-put_alert :
      (a : Alert) (groups : Dict Group)
      → tally count_of (put_alert a groups) ≡ tally count_of groups + 1
  unfolding new_group
  tally-put_alert a groups = elim (Option-cases (Dict.get groups (source_of a))) [
    | inl e ↦
        let moved =
          rw e at (tally-put count_of groups (source_of a) (add_to_group a (new_group now a))) in
        rw (e, put_alert) (omega (arith, moved, count-add_to_group a (new_group now a)))
    | inr (inc, e) ↦
        let moved = rw e at (tally-put count_of groups (source_of a) (add_to_group a inc)) in
        rw (e, put_alert) (omega (arith, moved, count-add_to_group a inc))
  ]

  tally-incidents_by_src :
      (alerts : List Alert) (groups : Dict Group)
      → tally count_of (incidents_by_src now alerts groups) ≡ tally count_of groups + length alerts
  unfolding incidents_by_src
  tally-incidents_by_src [] groups = omega arith
  tally-incidents_by_src (a ∷ alerts) groups =
      omega (arith, tally-incidents_by_src alerts (put_alert a groups), tally-put_alert a groups)

  abbrev IsGrouped : String → Dict Group → Type 0
  IsGrouped src groups = is_some (Dict.get groups src) ≡ true

  put_alert-IsGrouped :
      (a : Alert) (groups : Dict Group) (src : String)
      → IsGrouped src groups ⊎ (source_of a ≡ src)
      → IsGrouped src (put_alert a groups)
  put_alert-IsGrouped a groups src h = ground (
    arith,
    h,
    eq_iff (source_of a) src,
    get-put groups (source_of a) src
        (add_to_group a (or_else (Dict.get groups (source_of a)) (new_group now a))),
  )

  incidents_by_src-IsGrouped :
      (alerts : List Alert) (groups : Dict Group) (src : String)
      → IsGrouped src groups
      → IsGrouped src (incidents_by_src now alerts groups)
  unfolding incidents_by_src
  incidents_by_src-IsGrouped [] groups src h = h
  incidents_by_src-IsGrouped (a ∷ alerts) groups src h =
      incidents_by_src-IsGrouped alerts (put_alert a groups) src
        (put_alert-IsGrouped a groups src (inl h))

  mem-IsGrouped :
      (alerts : List Alert) (groups : Dict Group) (a : Alert)
      → Memᴰ a alerts
      → IsGrouped (source_of a) (incidents_by_src now alerts groups)
  unfolding incidents_by_src
  mem-IsGrouped [] groups a m = elim m [ ]
  mem-IsGrouped (b ∷ alerts) groups a (Memᴰ.head same) =
      incidents_by_src-IsGrouped alerts (put_alert b groups) (source_of a)
        (put_alert-IsGrouped b groups (source_of a) (inr (ap source_of (sym same))))
  mem-IsGrouped (b ∷ alerts) groups a (Memᴰ.tail m) = mem-IsGrouped alerts (put_alert b groups) a m

  -- The incidents are a partition of the alerts: the counts of all groups add up to the number of alerts, and each alert's
  -- source address has a group.
  pub incidents_by_src-partition :
      (alerts : List Alert) (a : Alert)
      → Memᴰ a alerts
      → (tally count_of (incidents_by_src now alerts []) ≡ length alerts)
        × (is_some (Dict.get (incidents_by_src now alerts []) (source_of a)) ≡ true)
  incidents_by_src-partition alerts a m =
      (omega (arith, tally-incidents_by_src alerts []), mem-IsGrouped alerts [] a m)
