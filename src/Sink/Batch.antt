-- ===== src/Sink/Batch.antt =====
-- `process_batch` and the dead letter queue of api/kafka_sink.py. The database is a table of rows and what the
-- driver answers: whether a row's savepoint goes through, and whether the commit does.
use ai_cyber_threat_detector.Common.{
  ℕ, Bool, Option, none, some, List, [], ◌∷◌, ◌++◌, str_eq, if◌then◌else◌,
}
use ai_cyber_threat_detector.Common.Dict.{Dict}
use ai_cyber_threat_detector.Sink.Payload.{Field, AlertPayload, validate, dump_evidence}
use ai_cyber_threat_detector.Sink.Offsets.{Offsets, advance}

-- a member of `batch`: (data, tp, msg.offset)
pub record Entry : Type 0 where
  pub item : Dict Field
  pub tp : ℕ
  pub offset : ℕ

pub data Reason : Type 0 where
  item_error commit_threshold database_threshold panic_threshold : Reason

-- The file of `write_to_file_dlq`: what was handed to it, newest last. A write that the disk refuses is
-- logged and swallowed in the source, and stands here all the same.
abbrev pub Dlq : Type 0
Dlq = List (Entry × Reason)

abbrev pub Table : Type 0
Table = List AlertPayload

-- `existing`: every field of the first row with the id is set anew; otherwise the row is added
unfoldable pub upsert : AlertPayload → Table → Table
upsert row [] = row ∷ []
upsert row (old ∷ table) =
    let rest = upsert row table in
    if str_eq old.alert_id row.alert_id then row ∷ table else old ∷ rest

-- what the outside answers while a batch is processed
pub record Driver : Type 0 where
  pub as_float : Field → Option ℕ
  -- the query and the flush inside `db.begin_nested()`
  pub flush : AlertPayload → Bool
  pub commit : Bool

-- the state of the loop over the batch; `stored` are the entries whose rows were flushed
pub record Progress : Type 0 where
  pub table : Table
  pub offsets : Offsets
  pub dlq : Dlq
  pub stored : List Entry

-- `_safe_dlq_send`: the file gets the entry whatever the Kafka queue does
unfoldable pub fail_item : Entry → Progress → Progress
fail_item e p = record p {
  dlq = p.dlq ++ (record e { item = dump_evidence e.item }, item_error) ∷ [];
  offsets = advance p.offsets e.tp e.offset;
}

unfoldable pub store_item : Entry → AlertPayload → Progress → Progress
store_item e row p = record p {
  table = upsert row p.table;
  offsets = advance p.offsets e.tp e.offset;
  stored = p.stored ++ e ∷ [];
}

-- one round of `for raw_item, tp, offset in current_batch`
unfoldable pub process_item : Driver → Entry → Progress → Progress
process_item d e p = elim (validate d.as_float (dump_evidence e.item)) [
  | none ↦ fail_item e p
  | some row ↦ if d.flush row then store_item e row p else fail_item e p
]

unfoldable pub process_items : Driver → List Entry → Progress → Progress
process_items d [] p = p
process_items d (e ∷ batch) p = process_items d batch (process_item d e p)

-- the dead letters stay written if the commit fails, and nothing else does
unfoldable pub process_batch : Driver → List Entry → Table → Dlq → Progress
process_batch d batch table dlq =
    let p =
      process_items d batch (record { table = table; offsets = []; dlq = dlq; stored = [] }) in
    if d.commit then p else record { table = table; offsets = []; dlq = p.dlq; stored = [] }
