-- ===== src/Terminal/Queue.antt =====
-- What the queue of terminal/tsoc_console.py shows, and when it stands still.
use mathlib.Core.List.{Memᴰ, append-nil, append_assoc, map-append}
use ai_cyber_threat_detector.Common.{
  ℕ, ◌≡◌, ◌↔◌, inl, inr, refl, sym, ap, ◌∙◌, Bool, true, false, not, ◌&&◌, ◌||◌, Option, some, List,
  [], ◌∷◌, String, str_eq, if◌then◌else◌, map, is_empty, All, All-Mem, Mem-All, Bool-cases,
}
use ai_cyber_threat_detector.Common.{◌++◌ as ◌⧺◌}
use ai_cyber_threat_detector.Common.Dict.{Dict}
use ai_cyber_threat_detector.Detection.Event.{Value}
use ai_cyber_threat_detector.DataAccess.Polling.{Alert}
use ai_cyber_threat_detector.DataAccess.Incidents.{
  Incident, Group, format_incident, get_incidents, incidents_by_src, named,
}
use ai_cyber_threat_detector.Terminal.Console.{
  Console, Row, Signal, sort_incidents, row_of, has_key, add_rows, update_queue,
  action_toggle_pause, find_incident, narrate, related, on_data_table_row_selected,
}
use ai_cyber_threat_detector.Terminal.Ranked.{
  IsRanked, sort_incidents-IsRanked, Mem-sort_incidents, IsDistinct, sort_incidents-IsDistinct,
}

-- an incident with a threat class and an entity, which its row names
abbrev IsShowable : Incident → Type 0
IsShowable i = (is_empty i.threat_classes ≡ false) × (is_empty i.affected_entities ≡ false)

has_key_last :
    (k : String) (rows : List Row) (row : Row)
    → has_key k rows ≡ false
    → str_eq row.key k ≡ false
    → has_key k (rows ⧺ row ∷ []) ≡ false
unfolding has_key
has_key_last k [] row h e = rw e refl
has_key_last k (r ∷ rows) row h e = elim (Bool-cases (str_eq r.key k)) [
  | inl f ↦ absurd (cc (rw f at h))
  | inr f ↦ rw f (has_key_last k rows row (rw f at h) e)
]

module _ (escape : String → String) (risk_text : ℕ → String) where
  row_of-key :
      (i : Incident)
      → IsShowable i
      → (row : Row) × (row_of escape risk_text i ≡ some row) × (row.key ≡ i.incident_id)
  unfolding row_of
  row_of-key i h = go i.threat_classes i.affected_entities refl refl h.0 h.1
    where
      go :
          (ts es : List String)
          → i.threat_classes ≡ ts
          → i.affected_entities ≡ es
          → is_empty ts ≡ false
          → is_empty es ≡ false
          → (row : Row) × (row_of escape risk_text i ≡ some row) × (row.key ≡ i.incident_id)
      go [] es a b p q = absurd (cc p)
      go (t ∷ ts) [] a b p q = absurd (cc q)
      go (t ∷ ts) (e ∷ es) a b p q = rw (a, row_of, b, row_of) (_, refl, refl)

  -- adding rows without an exception: each incident's row is appended
  rows-add_rows :
      (l : List Incident) (rows : List Row)
      → All IsShowable l
      → IsDistinct l
      → All (λ j. has_key j.incident_id rows ≡ false) l
      → map some (add_rows escape risk_text l rows)
        ≡ map some rows ⧺ map (row_of escape risk_text) l
  unfolding add_rows
  rows-add_rows [] rows h d n = sym (append-nil (map some rows))
  rows-add_rows (i ∷ l) rows h d n =
      let (row, e, same) = row_of-key i h.0 in
      let absent : has_key row.key rows ≡ false = rw same n.0 in
      let fresh : All (λ j. has_key j.incident_id (rows ⧺ row ∷ []) ≡ false) l =
        Mem-All (λ j. has_key j.incident_id (rows ⧺ row ∷ []) ≡ false) l
          λ j m.
            has_key_last j.incident_id rows row
              (All-Mem (λ j. has_key j.incident_id rows ≡ false) l j n.1 m)
              (rw same (All-Mem (λ j. str_eq i.incident_id j.incident_id ≡ false) l j d.0 m)) in
      rw (e, add_rows, absent)
        (rows-add_rows l (rows ⧺ row ∷ []) h.1 d.1 fresh
          ∙ ap (λ k. k ⧺ map (row_of escape risk_text) l) (map-append some rows (row ∷ []))
          ∙ append_assoc (map some rows) (some row ∷ []) (map (row_of escape risk_text) l))

runs : (live force : Bool) → (live || force) ≡ true → (not live && not force) ≡ false
runs true force h = refl
runs false true h = refl
runs false false h = absurd (cc h)

module _ (str_int : ℕ → String) (now : String) where
  format_incident-IsShowable : (p : String × Group) → IsShowable (format_incident str_int p)
  unfolding format_incident
  format_incident-IsShowable (src, inc) =
      (filled inc.threat_classes, filled_or (named inc.affected_entities))
    where
      filled :
          (l : List String)
          → is_empty (if is_empty l then "Unclassified Threat" ∷ [] else l) ≡ false
      filled [] = refl
      filled (s ∷ l) = refl

      filled_or : (l : List String) → is_empty (if is_empty l then src ∷ [] else l) ≡ false
      filled_or [] = refl
      filled_or (s ∷ l) = refl

  All-IsShowable : (groups : Dict Group) → All IsShowable (map (format_incident str_int) groups)
  All-IsShowable [] = tt
  All-IsShowable (g ∷ groups) = (format_incident-IsShowable g, All-IsShowable groups)

  -- If the ids of the data manager's incidents are distinct, the queue shows a row of every incident, once and nothing
  -- else, the one with the highest risk first, whenever it is updated in live mode or by the refresh key: its rows are those
  -- of a list, in order, that has the same incidents, no two with the same id.
  pub update_queue-get_incidents :
      (escape : String → String) (risk_text : ℕ → String) (force : Bool) (alerts : List Alert)
      (c : Console)
      → (c.live_mode || force) ≡ true
      → IsDistinct (get_incidents str_int now alerts)
      → (l : List Incident) × (map some
            (update_queue escape risk_text force (get_incidents str_int now alerts) c).queue
          ≡ map (row_of escape risk_text) l)
        × IsRanked l
        × IsDistinct l
        × ((x : Incident) → Memᴰ x l ↔ Memᴰ x (get_incidents str_int now alerts))
  unfolding update_queue get_incidents
  update_queue-get_incidents escape risk_text force alerts c active distinct =
      let incidents = map (format_incident str_int) (incidents_by_src now alerts []) in
      let showable : All IsShowable (sort_incidents incidents) =
        Mem-All IsShowable (sort_incidents incidents) λ x m.
          All-Mem IsShowable incidents x (All-IsShowable (incidents_by_src now alerts []))
            ((Mem-sort_incidents x incidents).0 m) in
      let sorted = sort_incidents-IsDistinct incidents distinct in
      let rows : map some (update_queue escape risk_text force incidents c).queue
          ≡ map (row_of escape risk_text) (sort_incidents incidents) =
        rw (runs c.live_mode force active) (
          rows-add_rows escape risk_text (sort_incidents incidents) [] showable sorted
            (Mem-All _ (sort_incidents incidents) λ x m. unfold has_key in refl)) in
      (
        sort_incidents incidents,
        rows,
        sort_incidents-IsRanked incidents,
        sorted,
        λ x. Mem-sort_incidents x incidents,
      )

module _ (line : (threat : String) → (key : String) → Value → Option (Bool × String))
    (flagged : (model threat : String) → ℕ → String) where
  selected_paused :
      (id : String) (incidents : List Incident) (alerts : List Signal) (c : Console)
      (inc : Incident) (told : List String × List String)
      → find_incident id incidents ≡ some inc
      → narrate line flagged (related line flagged inc.related_alert_ids alerts) ([], [])
        ≡ some told
      → (on_data_table_row_selected line flagged id incidents alerts c).live_mode ≡ false
  unfolding on_data_table_row_selected action_toggle_pause
  selected_paused id incidents alerts c inc told found tells = elim (Bool-cases c.live_mode) [
    | inl b ↦ rw (found, on_data_table_row_selected, tells, on_data_table_row_selected, b) refl
    | inr b ↦ rw (found, on_data_table_row_selected, tells, on_data_table_row_selected, b) refl
  ]

  -- Once an incident is shown the queue stands still: the periodic updates change nothing of the console, whatever arrives, until the analyst
  -- resumes the live mode, which toggles it back.
  pub update_queue-on_data_table_row_selected :
      (escape : String → String) (risk_text : ℕ → String) (id : String)
      (incidents later : List Incident) (alerts : List Signal) (c : Console) (inc : Incident)
      (told : List String × List String)
      → find_incident id incidents ≡ some inc
      → narrate line flagged (related line flagged inc.related_alert_ids alerts) ([], [])
        ≡ some told
      → let d = on_data_table_row_selected line flagged id incidents alerts c in
        (update_queue escape risk_text false later d ≡ d)
        × ((action_toggle_pause d).live_mode ≡ true)
  unfolding action_toggle_pause update_queue
  update_queue-on_data_table_row_selected escape risk_text id incidents later alerts c inc told
        found tells =
      let d = on_data_table_row_selected line flagged id incidents alerts c in
      let paused : d.live_mode ≡ false =
        selected_paused id incidents alerts c inc told found tells in
      (rw paused refl, rw paused refl)
