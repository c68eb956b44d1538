-- ===== src/Correlation/Covers.antt =====
-- What the report of inference/correlation.py says of the alerts behind it.
use mathlib.Core.List.{Memᴰ}
use ai_cyber_threat_detector.Common.{
  ℕ, ◌≤◌, ◌≡◌, true, false, Option, none, some, List, [], ◌∷◌, String, str_eq, if◌then◌else◌,
  contains, Option-cases, inl, inr, arith, is_empty,
}
use ai_cyber_threat_detector.Common.Case.{lower}
use ai_cyber_threat_detector.Correlation.Report.{
  ParsedAlert, sev_weight, include, Gathered, severity_of, gather_entry, gather, gathered, report,
}
use ai_cyber_threat_detector.Correlation.Severity.{
  include-keeps, include-adds, raise_severity-rises,
}

-- one state of the loop holds all that another one does
record IsWithin (g h : Gathered) : Type 0 where
  classes : (s : String) → contains s g.threat_classes ≡ true → contains s h.threat_classes ≡ true
  entities :
      (s : String) → contains s g.affected_entities ≡ true → contains s h.affected_entities ≡ true
  ids : (s : String) → contains s g.related_alert_ids ≡ true → contains s h.related_alert_ids ≡ true
  severity : sev_weight (lower g.max_sev) ≤ sev_weight (lower h.max_sev)

-- a text of the alert is listed, if it is there and not empty
abbrev pub IsListed : Option String → List String → Type 0
IsListed none l = Unit
IsListed (some s) l = str_eq s "" ≡ false → contains s l ≡ true

IsListed-include : (o : Option String) (l : List String) → IsListed o (include o l)
IsListed-include none l = tt
IsListed-include (some s) l = include-adds s l

IsListed-within :
    (o : Option String) (l m : List String)
    → ((s : String) → contains s l ≡ true → contains s m ≡ true)
    → IsListed o l
    → IsListed o m
IsListed-within none l m f h = tt
IsListed-within (some s) l m f h = λ e. f s (h e)

-- a default for an empty list changes nothing that is listed
IsListed-or :
    (o : Option String) (l : List String) (d : String)
    → IsListed o l
    → IsListed o (if is_empty l then d ∷ [] else l)
IsListed-or none l d h = tt
IsListed-or (some s) [] d h = λ e. absurd (cc (h e))
IsListed-or (some s) (x ∷ l) d h = h

-- what the report says of one alert behind it
pub record IsCovered (a : ParsedAlert) (classes entities ids : List String) (severity : String)
    : Type 0 where
  pub class_listed : IsListed a.threat_class classes
  pub entity_listed : IsListed a.destination_ip entities
  pub id_listed : IsListed a.alert_id ids
  pub severity_reached : sev_weight (severity_of a) ≤ sev_weight (lower severity)

gather_entry-IsWithin : (a : ParsedAlert) (g : Gathered) → IsWithin g (gather_entry a g)
unfolding gather_entry
gather_entry-IsWithin a g = record {
  classes = λ s h. include-keeps a.threat_class s g.threat_classes h;
  entities = λ s h. include-keeps a.destination_ip s g.affected_entities h;
  ids = λ s h. include-keeps a.alert_id s g.related_alert_ids h;
  severity = (raise_severity-rises (severity_of a) g.max_sev).0;
}

IsWithin-trans : {f g h : Gathered} → IsWithin f g → IsWithin g h → IsWithin f h
IsWithin-trans p q = record {
  classes = λ s k. q.classes s (p.classes s k);
  entities = λ s k. q.entities s (p.entities s k);
  ids = λ s k. q.ids s (p.ids s k);
  severity = omega (arith, p.severity, q.severity);
}

module _ (loads : String → Option ParsedAlert) (str_int : ℕ → String) where
  -- one turn of the loop
  abbrev after_raw : String → Gathered → Gathered
  after_raw raw g = elim (loads raw) [ none ↦ g | some a ↦ gather_entry a g ]

  after_raw-IsWithin : (raw : String) (g : Gathered) → IsWithin g (after_raw raw g)
  after_raw-IsWithin raw g = elim (Option-cases (loads raw)) [
    | inl e ↦
        rw (e, after_raw)
          (record {
            classes = λ s k. k;
            entities = λ s k. k;
            ids = λ s k. k;
            severity = omega arith;
          })
    | inr (a, e) ↦ rw (e, after_raw) (gather_entry-IsWithin a g)
  ]

  gather-IsWithin :
      (snapshot : List String) (g : Gathered) → IsWithin g (gather loads str_int snapshot g)
  unfolding gather
  gather-IsWithin [] g = record {
    classes = λ s k. k;
    entities = λ s k. k;
    ids = λ s k. k;
    severity = omega arith;
  }
  gather-IsWithin (raw ∷ snapshot) g =
      IsWithin-trans (after_raw-IsWithin raw g) (gather-IsWithin snapshot (after_raw raw g))

  abbrev IsHeld : ParsedAlert → Gathered → Type 0
  IsHeld a g = IsCovered a g.threat_classes g.affected_entities g.related_alert_ids g.max_sev

  IsHeld-within : (a : ParsedAlert) (g h : Gathered) → IsWithin g h → IsHeld a g → IsHeld a h
  IsHeld-within a g h p q = record {
    class_listed = IsListed-within a.threat_class _ _ p.classes q.class_listed;
    entity_listed = IsListed-within a.destination_ip _ _ p.entities q.entity_listed;
    id_listed = IsListed-within a.alert_id _ _ p.ids q.id_listed;
    severity_reached = omega (arith, p.severity, q.severity_reached);
  }

  gather_entry-IsHeld : (a : ParsedAlert) (g : Gathered) → IsHeld a (gather_entry a g)
  unfolding gather_entry
  gather_entry-IsHeld a g = record {
    class_listed = IsListed-include a.threat_class g.threat_classes;
    entity_listed = IsListed-include a.destination_ip g.affected_entities;
    id_listed = IsListed-include a.alert_id g.related_alert_ids;
    severity_reached = (raise_severity-rises (severity_of a) g.max_sev).1;
  }

  gather-IsHeld :
      (snapshot : List String) (raw : String) (a : ParsedAlert) (g : Gathered)
      → Memᴰ raw snapshot
      → loads raw ≡ some a
      → IsHeld a (gather loads str_int snapshot g)
  unfolding gather
  gather-IsHeld [] raw a g m e = elim m [ ]
  gather-IsHeld (x ∷ snapshot) raw a g (Memᴰ.head same) e =
      let held : IsHeld a (after_raw x g) =
        rw (← same) (rw (e, after_raw) (gather_entry-IsHeld a g)) in
      IsHeld-within a (after_raw x g) _ (gather-IsWithin snapshot (after_raw x g)) held
  gather-IsHeld (x ∷ snapshot) raw a g (Memᴰ.tail m) e =
      gather-IsHeld snapshot raw a (after_raw x g) m e

  -- The incident covers every alert of the script's snapshot that can be read: its threat class, its destination and its id are
  -- listed, if they are there and not empty, and no alert is more severe than the incident. The id of the
  -- alert that raised it is listed as well.
  pub report-IsCovered :
      (fresh_id : String) (now now_ms : ℕ) (src_ip : String) (alert : ParsedAlert)
      (trace_id : Option String) (snapshot : List String) (raw : String) (a : ParsedAlert)
      → Memᴰ raw snapshot
      → loads raw ≡ some a
      → let r = report loads str_int fresh_id now now_ms src_ip alert trace_id snapshot in
        IsCovered a r.threat_classes r.affected_entities r.related_alert_ids r.severity
        × IsListed alert.alert_id r.related_alert_ids
  unfolding report gathered
  report-IsCovered fresh_id now now_ms src_ip alert trace_id snapshot raw a m e =
      let held = gather-IsHeld snapshot raw a _ m e in
      (
        record {
          class_listed = IsListed-or a.threat_class _ _ held.class_listed;
          entity_listed = held.entity_listed;
          id_listed =
              IsListed-within a.alert_id _ _ (λ s k. include-keeps alert.alert_id s _ k)
                held.id_listed;
          severity_reached = held.severity_reached;
        },
        IsListed-include alert.alert_id _,
      )
