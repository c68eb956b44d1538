-- ===== src/Sink/Rows.antt =====
-- The rows of the database: the whitelist before them, one row for each alert id, and redelivery.
use ai_cyber_threat_detector.Common.{
  ℕ, ◌≡◌, refl, List, [], ◌∷◌, arith, if◌then◌else◌, Option, none, some, Bool, true, false, String,
  str_eq, eq_iff, contains, ◌&&◌, Option-cases, Bool-cases, inl, inr, ◌∙◌,
}
use ai_cyber_threat_detector.Common.Dict
use ai_cyber_threat_detector.Common.Dict.{Dict, get-put}
use ai_cyber_threat_detector.Sink.Payload.{
  Field, AlertPayload, validate, dump_evidence, required, optional,
}
use ai_cyber_threat_detector.Sink.Batch.{
  Entry, Table, Driver, Progress, upsert, fail_item, store_item, process_item, process_items,
  process_batch, Dlq,
}

-- the keys that AlertPayload declares
abbrev pub payload_keys : List String
payload_keys =
    "alert_id" ∷ "event_type" ∷ "timestamp" ∷ "threat_class" ∷ "severity" ∷ "confidence_score"
    ∷ "source_ip" ∷ "destination_ip" ∷ "evidence" ∷ "trace_id" ∷ "flow_id" ∷ "span_id"
    ∷ "mitre_tactic" ∷ "mitre_technique" ∷ "model_name" ∷ "model_version" ∷ "schema_version" ∷ []

differs :
    (l : List String) (k j : String)
    → contains j l ≡ true
    → contains k l ≡ false
    → str_eq k j ≡ false
differs l k j here absent = elim (Bool-cases (str_eq k j)) [
  | inl e ↦ cc (rw (← (eq_iff k j).0 e) at here)
  | inr e ↦ e
]

module _ (item : Dict Field) (k : String) (v : Field)
    (absent : contains k payload_keys ≡ false) where
  get_same :
      (j : String)
      → contains j payload_keys ≡ true
      → Dict.get (Dict.put item k v) j ≡ Dict.get item j
  get_same j known = get-put item k j v ∙ simp (differs payload_keys k j known absent)

  required_same :
      (j : String)
      → contains j payload_keys ≡ true
      → required (Dict.put item k v) j ≡ required item j
  unfolding required
  required_same j known = rw (get_same j known, required)

  optional_same :
      (j : String)
      → contains j payload_keys ≡ true
      → optional (Dict.put item k v) j ≡ optional item j
  unfolding optional
  optional_same j known = rw (get_same j known, optional)

  -- Whatever else a message carries, under a key that the schema does not declare, has no influence on whether
  -- it is accepted nor on the row that it makes.
  pub validate-put :
      (as_float : Field → Option ℕ) → validate as_float (Dict.put item k v) ≡ validate as_float item
  unfolding validate
  validate-put as_float = simp (
    required_same "alert_id" refl,
    required_same "event_type" refl,
    required_same "timestamp" refl,
    required_same "threat_class" refl,
    required_same "severity" refl,
    required_same "source_ip" refl,
    get_same "confidence_score" refl,
    optional_same "destination_ip" refl,
    optional_same "evidence" refl,
    optional_same "trace_id" refl,
    optional_same "flow_id" refl,
    optional_same "span_id" refl,
    optional_same "mitre_tactic" refl,
    optional_same "mitre_technique" refl,
    optional_same "model_name" refl,
    optional_same "model_version" refl,
    optional_same "schema_version" refl,
  )

-- db.query(Alert).filter(Alert.alert_id == aid).first()
unfoldable pub find : String → Table → Option AlertPayload
find k [] = none
find k (row ∷ table) = if str_eq row.alert_id k then some row else find k table

pub find-upsert :
    (row : AlertPayload) (k : String) (table : Table)
    → find k (upsert row table) ≡ (if str_eq row.alert_id k then some row else find k table)
unfolding find upsert
find-upsert row k [] = refl
find-upsert row k (old ∷ table) = ground (
  arith,
  find-upsert row k table,
  eq_iff old.alert_id row.alert_id,
  eq_iff row.alert_id k,
  eq_iff old.alert_id k,
)

-- the unique index on alert_id
abbrev pub IsIndexed : Table → Type 0
IsIndexed [] = Unit
IsIndexed (row ∷ table) = (find row.alert_id table ≡ none) × IsIndexed table

upsert-IsIndexed :
    (row : AlertPayload) (table : Table) → IsIndexed table → IsIndexed (upsert row table)
unfolding upsert
upsert-IsIndexed row [] h = (unfold find in refl, tt)
upsert-IsIndexed row (old ∷ table) h = elim (Bool-cases (str_eq old.alert_id row.alert_id)) [
  | inl e ↦ simp e (rw (← (eq_iff old.alert_id row.alert_id).0 e) h.0, h.1)
  | inr e ↦ simp e (
    ground (
      arith,
      find-upsert row old.alert_id table,
      eq_iff old.alert_id row.alert_id,
      eq_iff row.alert_id old.alert_id,
      h.0,
    ),
    upsert-IsIndexed row table h.1,
  )
]

-- the row that the last acceptable entry of a batch makes for an id
last_row : Driver → String → List Entry → Option AlertPayload
last_row d k [] = none
last_row d k (e ∷ batch) = elim (last_row d k batch) [
  | some row ↦ some row
  | none ↦ elim (validate d.as_float (dump_evidence e.item)) [
    | some row ↦ if d.flush row && str_eq row.alert_id k then some row else none
    | none ↦ none
  ]
]

abbrev or_old : Option AlertPayload → Option AlertPayload → Option AlertPayload
or_old none old = old
or_old (some row) old = some row

find-process_item :
    (d : Driver) (k : String) (e : Entry) (p : Progress)
    → find k (process_item d e p).table ≡ or_old (last_row d k (e ∷ [])) (find k p.table)
unfolding process_item fail_item store_item last_row
find-process_item d k e p = elim (Option-cases (validate d.as_float (dump_evidence e.item))) [
  | inl bad ↦ rw (bad, process_item) (rw (bad, last_row) refl)
  | inr (row, good) ↦ ground (arith, find-upsert row k p.table)
]

find-process_items :
    (d : Driver) (k : String) (batch : List Entry) (p : Progress)
    → find k (process_items d batch p).table ≡ or_old (last_row d k batch) (find k p.table)
unfolding process_items last_row
find-process_items d k [] p = refl
find-process_items d k (e ∷ batch) p =
    ground (arith, find-process_items d k batch (process_item d e p), find-process_item d k e p)

process_item-IsIndexed :
    (d : Driver) (e : Entry) (p : Progress)
    → IsIndexed p.table
    → IsIndexed (process_item d e p).table
unfolding process_item fail_item store_item
process_item-IsIndexed d e p h = elim (Option-cases (validate d.as_float (dump_evidence e.item))) [
  | inl bad ↦ rw (bad, process_item) h
  | inr (row, good) ↦ elim (Bool-cases (d.flush row)) [
    | inl q ↦ rw (good, process_item) (rw q (upsert-IsIndexed row p.table h))
    | inr q ↦ rw (good, process_item) (rw q h)
  ]
]

process_items-IsIndexed :
    (d : Driver) (batch : List Entry) (p : Progress)
    → IsIndexed p.table
    → IsIndexed (process_items d batch p).table
unfolding process_items
process_items-IsIndexed d [] p h = h
process_items-IsIndexed d (e ∷ batch) p h =
    process_items-IsIndexed d batch _ (process_item-IsIndexed d e p h)

module _ (d : Driver) (batch : List Entry) (table : Table) (dlq : Dlq) where
  abbrev start : Progress
  start = record { table = table; offsets = []; dlq = dlq; stored = [] }

  table-process_batch :
      (process_batch d batch table dlq).table
      ≡ (if d.commit then (process_items d batch start).table else table)
  unfolding process_batch
  table-process_batch = ground arith

  find-process_batch :
      (k : String)
      → find k (process_batch d batch table dlq).table
        ≡ (if d.commit then or_old (last_row d k batch) (find k table) else find k table)
  find-process_batch k = ground (arith, table-process_batch, find-process_items d k batch start)

  -- There is one row for each alert id at most, whatever the batch holds, if there was before.
  pub process_batch-IsIndexed : IsIndexed table → IsIndexed (process_batch d batch table dlq).table
  process_batch-IsIndexed h = rw table-process_batch (either d.commit)
    where
      either : (b : Bool) → IsIndexed (if b then (process_items d batch start).table else table)
      either true = process_items-IsIndexed d batch start h
      either false = h

module _ (d again : Driver) (as_float : again.as_float ≡ d.as_float)
    (flushes : (row : AlertPayload) → again.flush row ≡ true) where
  -- an id that the complete delivery has no row for has none in the other one
  last_row-none :
      (k : String) (batch : List Entry) → last_row again k batch ≡ none → last_row d k batch ≡ none
  unfolding last_row
  last_row-none k [] h = refl
  last_row-none k (e ∷ batch) h = elim (Option-cases (last_row again k batch)) [
    | inr (row, f) ↦ absurd (cc (rw (f, last_row) at h))
    | inl f ↦
        let rest = last_row-none k batch f in
        elim (Option-cases (validate d.as_float (dump_evidence e.item))) [
          | inl g ↦ rw (rest, last_row, g) refl
          | inr (row, g) ↦ elim (Bool-cases (str_eq row.alert_id k)) [
            | inl same ↦ absurd (cc (rw (f, last_row, as_float, g, flushes row, same) at h))
            | inr other ↦ rw (rest, last_row, g, other) (ground arith)
          ]
        ]
  ]

  -- Redelivery makes up for a first delivery that failed in part or altogether: if Kafka delivers a batch again, and
  -- this time every row is flushed and the transaction commits, then the row that is found for an id is the
  -- one that this delivery alone would have stored, whatever the flushes and the commit of the first delivery
  -- answered. Both deliveries read numbers alike.
  pub process_batch-process_batch :
      (batch : List Entry) (table : Table) (dlq dlq' : Dlq) (k : String)
      → again.commit ≡ true
      → find k (process_batch again batch (process_batch d batch table dlq).table dlq').table
        ≡ find k (process_batch again batch table dlq').table
  process_batch-process_batch batch table dlq dlq' k commits =
      let first = find-process_batch d batch table dlq k in
      let second = find-process_batch again batch (process_batch d batch table dlq).table dlq' k in
      let once = find-process_batch again batch table dlq' k in
      elim (Option-cases (last_row again k batch)) [
        | inr (row, e) ↦ ground (arith, second, once, e, commits)
        | inl e ↦ ground (arith, first, second, once, e, commits, last_row-none k batch e)
      ]
