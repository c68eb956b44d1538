-- ===== src/Sink/Intake.antt =====
-- The invariant of the sink's loop in api/kafka_sink.py, and that a poll keeps it.
use ai_cyber_threat_detector.Common.{
  ℕ, suc, ◌≤◌, ◌<◌, ◌≡◌, refl, List, [], ◌∷◌, All, All-append, arith, ltb, Bool-cases, inl, inr,
  length, Option, none, some,
}
use ai_cyber_threat_detector.Sink.Offsets.{Offsets, get, advance, get-advance}
use ai_cyber_threat_detector.Sink.Batch.{Entry}
use ai_cyber_threat_detector.Sink.Loop.{
  Message, Tick, Sink, accepted, add_entry, intake, poll, max_batch_size, max_consecutive_failures,
}
use ai_cyber_threat_detector.Sink.Bounds.{
  IsBelow, AreBelow, get-le, advance-IsBelow, IsBelow-mono, AreBelow-mono,
}

-- no waiting entry lies before the broker's offset: a restart reads it again
abbrev pub AreWaiting : Offsets → List Entry → Type 0
AreWaiting broker = All (λ e. get broker e.tp ≤ e.offset)

pub record IsSafe (s : Sink) : Type 0 where
  pub waiting : AreWaiting s.broker s.batch
  pub observed : IsBelow (get s.observed) s.observed
  pub broker : IsBelow (get s.observed) s.broker
  pub committed : IsBelow (get s.observed) s.committed
  pub batch : AreBelow (get s.observed) s.batch
  pub failures : s.failures < max_consecutive_failures

-- Kafka delivers the records of a partition in the order of their offsets
abbrev pub AreOrdered : Offsets → List Message → Type 0
AreOrdered observed [] = Unit
AreOrdered observed (m ∷ records) =
    (get observed m.tp ≤ m.offset) × AreOrdered (advance observed m.tp m.offset) records

module _ (m : Offsets) (p o : ℕ) where
  le-advance : (q : ℕ) → get m q ≤ get (advance m p o) q
  le-advance q = ground (arith, get-advance m p o q)

  lt-advance : suc o ≤ get (advance m p o) p
  lt-advance = ground (arith, get-advance m p o p)

accepted_place :
    (m : Message) {e : Entry} → accepted m ≡ some e → (e.tp ≡ m.tp) × (e.offset ≡ m.offset)
unfolding accepted
accepted_place m h = ground arith

add_entry-All {κ} :
    (P : Entry → Type κ) (o : Option Entry) (batch : List Entry)
    → ((e : Entry) → o ≡ some e → P e)
    → All P batch
    → All P (add_entry o batch)
unfolding add_entry
add_entry-All P none batch f h = h
add_entry-All P (some e) batch f h = All-append P batch (e ∷ []) h (f e refl, tt)

observe : Message → Sink → Sink
observe m s = record s {
  observed = advance s.observed m.tp m.offset;
  batch = add_entry (accepted m) s.batch;
}

observe-IsSafe :
    (m : Message) (s : Sink) → get s.observed m.tp ≤ m.offset → IsSafe s → IsSafe (observe m s)
unfolding observe
observe-IsSafe m s later h =
    let le = le-advance s.observed m.tp m.offset in
    record {
      waiting =
          add_entry-All (λ e. get s.broker e.tp ≤ e.offset) (accepted m) s.batch
            (λ e a.
              let (tp, offset) = accepted_place m a in
              rw (tp, offset) (omega (arith, get-le (get s.observed) s.broker m.tp h.broker)))
            h.waiting;
      observed =
          advance-IsBelow _ s.observed m.tp m.offset (lt-advance s.observed m.tp m.offset)
            (IsBelow-mono le s.observed h.observed);
      broker = IsBelow-mono le s.broker h.broker;
      committed = IsBelow-mono le s.committed h.committed;
      batch =
          add_entry-All (λ e. suc e.offset ≤ get (advance s.observed m.tp m.offset) e.tp)
            (accepted m) s.batch
            (λ e a.
              let (tp, offset) = accepted_place m a in
              rw (tp, offset) (lt-advance s.observed m.tp m.offset))
            (AreBelow-mono le s.batch h.batch);
      failures = h.failures;
    }

intake-IsSafe :
    (records : List Message) (s : Sink)
    → AreOrdered s.observed records
    → IsSafe s
    → IsSafe (intake records s)
unfolding intake observe
intake-IsSafe [] s o h = h
intake-IsSafe (m ∷ records) s o h =
    intake-IsSafe records (observe m s) o.1 (observe-IsSafe m s o.0 h)

pub poll-IsSafe :
    (t : Tick) (s : Sink) → AreOrdered s.observed t.polled → IsSafe s → IsSafe (poll t s)
unfolding poll
poll-IsSafe t s o h = elim (Bool-cases (ltb (length s.batch) max_batch_size)) [
  | inl e ↦ rw e (intake-IsSafe t.polled s o h)
  | inr e ↦ rw e h
]
