-- ===== src/Terminal/Console.antt =====
-- `TSOCConsole` of terminal/tsoc_console.py. The escape of rich and the formats of numbers are parameters; sets are lists without repetition, in
-- the order of insertion.
use Prim.Native.String.{◌++◌, count}
use ai_cyber_threat_detector.Common.{
  ℕ, Bool, true, false, not, ◌&&◌, ◌||◌, Option, none, some, List, [], ◌∷◌, String, str_eq,
  if◌then◌else◌, ltb, contains, length, ◌>>=◌,
}
use ai_cyber_threat_detector.Common.{◌++◌ as ◌⧺◌}
use ai_cyber_threat_detector.Common.Dict.{Dict}
use ai_cyber_threat_detector.Common.Case.{upper, lower}
use ai_cyber_threat_detector.Training.Sidecar.{read}
use ai_cyber_threat_detector.DataAccess.Incidents.{Incident}
use ai_cyber_threat_detector.Detection.Event.{Value}

pub record Row : Type 0 where
  pub sev_styled : String
  pub risk : String
  pub threat : String
  pub target : String
  pub key : String

-- an alert of `get_alerts`; its evidence is none where it is no dict
pub record Signal : Type 0 where
  pub alert_id : Option String
  pub threat_class : Option String
  pub evidence : Option (Dict Value)
  pub model_name : Option String
  pub confidence : ℕ

-- the two lists of a narrative
abbrev pub Narrative : Type 0
Narrative = List String × List String

pub record Detail : Type 0 where
  pub incident : Incident
  pub observed_text : List String
  pub inferred_text : List String
  pub related : ℕ

pub record Console : Type 0 where
  pub live_mode : Bool
  pub sub_title : String
  pub queue : List Row
  pub detail : Option Detail
  pub notices : List String

unfoldable pub on_mount : Console
on_mount = record {
  live_mode = true;
  sub_title = "[LIVE] | DIODE: ONE-WAY | SENSOR: HEALTHY";
  queue = [];
  detail = none;
  notices = [];
}

unfoldable pub action_toggle_pause : Console → Console
action_toggle_pause c = record c {
  live_mode = not c.live_mode;
  sub_title = if not c.live_mode then "[LIVE] | DIODE: ONE-WAY" else "[PAUSED]";
}

unfoldable pub action_acknowledge : Console → Console
action_acknowledge c = record c {
  notices = c.notices ⧺ "Action 'Acknowledge' is simulated (Read-Only Mode active)." ∷ [];
}

-- The sort is stable: a row stands before the later rows of the same risk.
unfoldable pub insert_incident : Incident → List Incident → List Incident
insert_incident i [] = i ∷ []
insert_incident i (j ∷ l) =
    let rest = insert_incident i l in if ltb i.risk_score j.risk_score then j ∷ rest else i ∷ j ∷ l

unfoldable pub sort_incidents : List Incident → List Incident
unfolding insert_incident
sort_incidents [] = []
sort_incidents (i ∷ l) = insert_incident i (sort_incidents l)

-- l[0]; `none` is the IndexError of an empty list
unfoldable pub first : List String → Option String
first [] = none
first (s ∷ l) = some s

-- a row of the table has the key
unfoldable pub has_key : String → List Row → Bool
has_key k [] = false
has_key k (row ∷ rows) = str_eq row.key k || has_key k rows

module _ (escape : String → String) (risk_text : ℕ → String) where
  unfoldable pub row_of : Incident → Option Row
  unfolding first read upper lower
  row_of inc = do
    threat ← first inc.threat_classes
    entity ← first inc.affected_entities
    some (
        let sev = upper inc.severity in
        let target = escape entity in
        record {
          sev_styled = "[" ++ (lower sev ++ ("]" ++ (sev ++ "[/]")));
          risk = risk_text inc.risk_score;
          threat = escape threat;
          target = if ltb 15 (count target) then read 12 target ++ "..." else target;
          key = inc.incident_id;
        })

  -- The loop over the incidents. An exception leaves the rows that were added before it: that of an empty list, or the
  -- DuplicateKey of `add_row`.
  unfoldable pub add_rows : List Incident → List Row → List Row
  unfolding row_of has_key
  add_rows [] rows = rows
  add_rows (inc ∷ incidents) rows = elim (row_of inc) [
    | none ↦ rows
    | some row ↦
        let rest = add_rows incidents (rows ⧺ row ∷ []) in
        if has_key row.key rows then rows else rest
  ]

  unfoldable pub update_queue : (force : Bool) → List Incident → Console → Console
  unfolding sort_incidents add_rows
  update_queue force incidents c =
      if not c.live_mode && not force
      then c
      else record c { queue = add_rows (sort_incidents incidents) [] }

  unfoldable pub action_refresh_data : List Incident → Console → Console
  unfolding update_queue
  action_refresh_data incidents c = update_queue true incidents c

unfoldable pub add_line : String → List String → List String
add_line s l = if contains s l then l else l ⧺ s ∷ []

unfoldable pub find_incident : String → List Incident → Option Incident
find_incident incident_id [] = none
find_incident incident_id (i ∷ l) =
    let rest = find_incident incident_id l in
    if str_eq i.incident_id incident_id then some i else rest

-- `line` is what an entry of the evidence says, and whether that is inferred; `none` is the exception of a format
module _ (line : (threat : String) → (key : String) → Value → Option (Bool × String))
    (flagged : (model threat : String) → ℕ → String) where
  unfoldable pub add_entries : (threat : String) → Dict Value → Narrative → Option Narrative
  unfolding add_line
  add_entries threat [] n = some n
  add_entries threat ((k, v) ∷ evidence) (observed, inferred) = elim (line threat k v) [
    | none ↦ none
    | some (true, s) ↦ add_entries threat evidence (observed, add_line s inferred)
    | some (false, s) ↦ add_entries threat evidence (add_line s observed, inferred)
  ]

  unfoldable pub add_model : Signal → (threat : String) → Narrative → Narrative
  unfolding add_line
  add_model a threat (observed, inferred) = elim a.model_name [
    | none ↦ (observed, inferred)
    | some model ↦
        if str_eq model ""
        then (observed, inferred)
        else (observed, add_line (flagged model threat a.confidence) inferred)
  ]

  -- The loop over the related alerts. Evidence that is no dict has no `items`: an exception.
  unfoldable pub narrate : List Signal → Narrative → Option Narrative
  unfolding add_entries add_model
  narrate [] n = some n
  narrate (a ∷ alerts) n = elim a.evidence [
    | none ↦ none
    | some evidence ↦
        let threat : String = elim a.threat_class [ none ↦ "Threat" | some t ↦ t ] in
        elim (add_entries threat evidence n) [
          | none ↦ none
          | some told ↦ narrate alerts (add_model a threat told)
        ]
  ]

  unfoldable pub related : List String → List Signal → List Signal
  related ids [] = []
  related ids (a ∷ alerts) =
      let rest = related ids alerts in
      elim a.alert_id [ none ↦ rest | some id ↦ if contains id ids then a ∷ rest else rest ]

  unfoldable pub lines_or : List String → String → List String
  lines_or [] default = default ∷ []
  lines_or (s ∷ l) default = s ∷ l

  -- Showing an incident pauses the live mode. An exception of the narrative leaves the console as it was.
  unfoldable pub on_data_table_row_selected :
      String → List Incident → List Signal → Console → Console
  unfolding find_incident narrate related lines_or action_toggle_pause
  on_data_table_row_selected incident_id incidents all_alerts c =
      elim (find_incident incident_id incidents) [
        | none ↦ c
        | some inc ↦ elim (narrate (related inc.related_alert_ids all_alerts) ([], [])) [
          | none ↦ c
          | some (observed, inferred) ↦
              let shown : Console = record c {
                detail = some (record {
                  incident = inc;
                  observed_text = lines_or observed "- No raw metadata facts extracted.";
                  inferred_text =
                      lines_or inferred "- Rule-based heuristic, no ML models triggered.";
                  related = length inc.related_alert_ids;
                });
              } in
              if c.live_mode
              then record (action_toggle_pause shown) {
                notices = c.notices ⧺ "Paused live updates for investigation." ∷ [];
              }
              else shown
        ]
      ]
