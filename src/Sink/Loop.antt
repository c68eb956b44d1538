-- ===== src/Sink/Loop.antt =====
-- `run_sink` of api/kafka_sink.py: one round of its loop, and the graceful shutdown. Logging, the
-- sleeps and the flush of the Kafka queue change no state and are left out.
use ai_cyber_threat_detector.Common.{
  ℕ, ◌+◌, ◌-◌, ◌*◌, Bool, true, false, not, ◌&&◌, ◌||◌, Option, none, some, List, [], ◌∷◌, ◌++◌,
  ltb, leb, if◌then◌else◌, length, is_empty, map,
}
use ai_cyber_threat_detector.Common.Dict
use ai_cyber_threat_detector.Common.Dict.{Dict}
use ai_cyber_threat_detector.Sink.Payload.{Field, truthy, dump_evidence}
use ai_cyber_threat_detector.Sink.Offsets.{Offsets, advance, update, stale}
use ai_cyber_threat_detector.Sink.Batch.{
  Entry, Reason, commit_threshold, database_threshold, panic_threshold, Dlq, Table, Driver,
  process_batch,
}

abbrev pub max_msg_size : ℕ
max_msg_size = 5 * 1024 * 1024

abbrev pub max_batch_size : ℕ
max_batch_size = 100

abbrev pub max_consecutive_failures : ℕ
max_consecutive_failures = 5

abbrev pub panic_batch_size : ℕ
panic_batch_size = 500

-- A Kafka record. `decoded` is the dict that decoding and `json.loads` give, `none` if they raise or give
-- something else.
pub record Message : Type 0 where
  pub tp : ℕ
  pub offset : ℕ
  pub size : ℕ
  pub decoded : Option (Dict Field)

-- What the outside answers during one round. Times are in seconds.
pub record Tick : Type 0 where
  -- the records in the order of the loops over them; `poll` that raises gives none
  pub polled : List Message
  pub now : ℕ
  pub driver : Driver
  -- the answers to at most MAX_COMMIT_RETRIES attempts
  pub attempts : Bool × Bool × Bool
  pub evacuation_commit : Bool
  pub stale_commit : Bool
  pub panic_commit : Bool

-- The variables of `run_sink`, with the table, the dead letters, all entries stored so far, and the offsets
-- that the broker holds for the group.
pub record Sink : Type 0 where
  pub batch : List Entry
  pub last_commit : ℕ
  pub failures : ℕ
  pub observed : Offsets
  pub committed : Offsets
  pub broker : Offsets
  pub table : Table
  pub dlq : Dlq
  pub stored : List Entry

-- the guards of the inner `try`: too large, no dict, no alert_id
unfoldable pub accepted : Message → Option Entry
accepted m = elim m.decoded [
  | none ↦ none
  | some item ↦
      if ltb max_msg_size m.size || not (truthy (Dict.get item "alert_id"))
      then none
      else some (record { item = dump_evidence item; tp = m.tp; offset = m.offset })
]

unfoldable pub add_entry : Option Entry → List Entry → List Entry
add_entry none batch = batch
add_entry (some e) batch = batch ++ e ∷ []

-- the offset of a message counts as observed whether it is accepted or not
unfoldable pub intake : List Message → Sink → Sink
intake [] s = s
intake (m ∷ records) s = intake records (record s {
  observed = advance s.observed m.tp m.offset;
  batch = add_entry (accepted m) s.batch;
})

unfoldable pub poll : Tick → Sink → Sink
poll t s = if ltb (length s.batch) max_batch_size then intake t.polled s else s

-- `consumer.commit` of the offsets of everything in the batch
unfoldable pub max_offsets : List Entry → Offsets → Offsets
max_offsets [] m = m
max_offsets (e ∷ batch) m = max_offsets batch (advance m e.tp e.offset)

-- the batch leaves for the file queue; `noted` says whether a successful commit is also recorded in
-- last_committed_offsets, which the panic guard omits
unfoldable pub evacuate : Reason → Bool → Bool → ℕ → Sink → Sink
evacuate reason noted commit now s =
    let offsets = max_offsets s.batch [] in
    record s {
      batch = [];
      last_commit = now;
      failures = 0;
      dlq = s.dlq ++ map (λ e. (e, reason)) s.batch;
      broker = if commit then update s.broker offsets else s.broker;
      committed = if commit && noted then update s.committed offsets else s.committed;
    }

unfoldable pub give_up : Reason → Bool → ℕ → Sink → Sink
give_up reason commit now s =
    let s' = record s { failures = s.failures + 1 } in
    if leb max_consecutive_failures (s.failures + 1) then evacuate reason true commit now s' else s'

-- after a batch that the database took
unfoldable pub commit_offsets : Tick → Offsets → Sink → Sink
commit_offsets t processed s =
    if t.attempts.0 || (t.attempts.1 || t.attempts.2)
    then record s {
      batch = [];
      last_commit = t.now;
      failures = 0;
      broker = update s.broker processed;
      committed = update s.committed processed;
    }
    else give_up commit_threshold t.evacuation_commit t.now s

unfoldable pub flush : Tick → Sink → Sink
flush t s =
    let p = process_batch t.driver s.batch s.table s.dlq in
    let s' = record s { table = p.table; dlq = p.dlq; stored = s.stored ++ p.stored } in
    if is_empty p.offsets
    then give_up database_threshold t.evacuation_commit t.now s'
    else commit_offsets t p.offsets s'

unfoldable pub flush_if_due : Tick → Sink → Sink
flush_if_due t s =
    let s' = flush t s in
    if leb max_batch_size (length s.batch)
      || (not (is_empty s.batch) && leb 5 (t.now - s.last_commit))
    then s'
    else s

unfoldable pub commit_stale : Tick → Sink → Sink
commit_stale t s =
    let tps = stale s.committed s.observed in
    if is_empty s.batch && (not (is_empty tps) && t.stale_commit)
    then record s { broker = update s.broker tps; committed = update s.committed tps }
    else s

unfoldable pub panic_guard : Tick → Sink → Sink
panic_guard t s =
    if leb panic_batch_size (length s.batch)
    then evacuate panic_threshold false t.panic_commit t.now s
    else s

-- one round of `while running`
unfoldable pub cycle : Tick → Sink → Sink
cycle t s = panic_guard t (commit_stale t (flush_if_due t (poll t s)))

unfoldable pub run : List Tick → Sink → Sink
run [] s = s
run (t ∷ ticks) s = run ticks (cycle t s)

-- after the loop: one last batch and one attempt to commit; nothing is evacuated
unfoldable pub shutdown : Driver → Bool → Sink → Sink
shutdown d commit s =
    let p = process_batch d s.batch s.table s.dlq in
    let s' = record s { table = p.table; dlq = p.dlq; stored = s.stored ++ p.stored } in
    if is_empty s.batch
    then s
    else if commit && not (is_empty p.offsets)
    then record s' { broker = update s.broker p.offsets }
    else s'

abbrev pub initial : ℕ → Sink
initial now = record {
  batch = [];
  last_commit = now;
  failures = 0;
  observed = [];
  committed = [];
  broker = [];
  table = [];
  dlq = [];
  stored = [];
}
