-- ===== src/Sink/Safety.antt =====
-- What the broker is told: never past what was observed, and never past a message that still waits.
use ai_cyber_threat_detector.Common.{
  ℕ, ◌+◌, ◌≡◌, List, [], ◌∷◌, ◌++◌, arith, leb, if◌then◌else◌, Bool-cases, inl, inr, Bool, true,
  false, is_empty, ◌&&◌, ◌||◌, not,
}
use ai_cyber_threat_detector.Sink.Offsets.{Offsets, get, update, stale}
use ai_cyber_threat_detector.Sink.Batch.{
  Entry, process_batch, Reason, database_threshold, commit_threshold, panic_threshold,
}
use ai_cyber_threat_detector.Sink.Loop.{
  Tick, Sink, evacuate, give_up, commit_offsets, flush, flush_if_due, commit_stale, panic_guard,
  cycle, run, max_consecutive_failures, initial,
}
use ai_cyber_threat_detector.Sink.Bounds.{
  IsBelow, update-IsBelow, stale-IsBelow, max_offsets-IsBelow, process_batch-IsBelow,
}
use ai_cyber_threat_detector.Sink.Intake.{IsSafe, AreWaiting, AreOrdered, poll-IsSafe}

IsBelow-if :
    (B : ℕ → ℕ) (b : Bool) (m n : Offsets)
    → IsBelow B m
    → IsBelow B n
    → IsBelow B (if b then m else n)
IsBelow-if B true m n h k = h
IsBelow-if B false m n h k = k

IsSafe-if : (b : Bool) (s u : Sink) → IsSafe s → IsSafe u → IsSafe (if b then s else u)
IsSafe-if true s u h k = h
IsSafe-if false s u h k = k

evacuate-IsSafe :
    (reason : Reason) (noted commit : Bool) (now : ℕ) (s : Sink)
    → IsSafe s
    → IsSafe (evacuate reason noted commit now s)
unfolding evacuate
evacuate-IsSafe reason noted commit now s h =
    let offsets = max_offsets-IsBelow (get s.observed) s.batch [] h.batch tt in
    let B = get s.observed in
    record {
      waiting = tt;
      observed = h.observed;
      broker =
          IsBelow-if B commit (update s.broker _) s.broker
            (update-IsBelow B s.broker _ h.broker offsets) h.broker;
      committed =
          IsBelow-if B (commit && noted) (update s.committed _) s.committed
            (update-IsBelow B s.committed _ h.committed offsets) h.committed;
      batch = tt;
      failures = omega arith;
    }

give_up-IsSafe :
    (reason : Reason) (commit : Bool) (now : ℕ) (s : Sink)
    → IsSafe s
    → IsSafe (give_up reason commit now s)
unfolding give_up evacuate
give_up-IsSafe reason commit now s h =
    elim (Bool-cases (leb max_consecutive_failures (s.failures + 1))) [
      | inl e ↦ rw e (evacuate-IsSafe reason true commit now s h)
      | inr e ↦ rw e (record {
        waiting = h.waiting;
        observed = h.observed;
        broker = h.broker;
        committed = h.committed;
        batch = h.batch;
        failures = ground arith;
      })
    ]

commit_offsets-IsSafe :
    (t : Tick) (processed : Offsets) (s : Sink)
    → IsBelow (get s.observed) processed
    → IsSafe s
    → IsSafe (commit_offsets t processed s)
unfolding commit_offsets
commit_offsets-IsSafe t processed s le h =
    elim (Bool-cases (t.attempts.0 || (t.attempts.1 || t.attempts.2))) [
      | inl e ↦ simp e (record {
        waiting = tt;
        observed = h.observed;
        broker = update-IsBelow _ s.broker processed h.broker le;
        committed = update-IsBelow _ s.committed processed h.committed le;
        batch = tt;
        failures = omega arith;
      })
      | inr e ↦ simp e (give_up-IsSafe commit_threshold t.evacuation_commit t.now s h)
    ]

-- the invariant does not look at the table, the dead letters or what is stored
flush-IsSafe : (t : Tick) (s : Sink) → IsSafe s → IsSafe (flush t s)
unfolding flush
flush-IsSafe t s h =
    let p = process_batch t.driver s.batch s.table s.dlq in
    let s' : Sink = record s { table = p.table; dlq = p.dlq; stored = s.stored ++ p.stored } in
    let h' : IsSafe s' = record {
      waiting = h.waiting;
      observed = h.observed;
      broker = h.broker;
      committed = h.committed;
      batch = h.batch;
      failures = h.failures;
    } in
    let le = process_batch-IsBelow (get s.observed) t.driver s.batch s.table s.dlq h.batch in
    elim (Bool-cases (is_empty p.offsets)) [
      | inl e ↦ simp e (give_up-IsSafe database_threshold t.evacuation_commit t.now s' h')
      | inr e ↦ simp e (commit_offsets-IsSafe t p.offsets s' le h')
    ]

flush_if_due-IsSafe : (t : Tick) (s : Sink) → IsSafe s → IsSafe (flush_if_due t s)
unfolding flush_if_due
flush_if_due-IsSafe t s h = IsSafe-if _ (flush t s) s (flush-IsSafe t s h) h

AreWaiting-none : (broker : Offsets) (l : List Entry) → is_empty l ≡ true → AreWaiting broker l
AreWaiting-none broker [] h = tt
AreWaiting-none broker (e ∷ l) h = cc

commit_stale-IsSafe : (t : Tick) (s : Sink) → IsSafe s → IsSafe (commit_stale t s)
unfolding commit_stale
commit_stale-IsSafe t s h =
    let le = stale-IsBelow (get s.observed) s.committed s.observed h.observed in
    elim (Bool-cases
      (is_empty s.batch && (not (is_empty (stale s.committed s.observed)) && t.stale_commit))) [
        | inl e ↦ simp e (record {
          waiting = AreWaiting-none _ s.batch (ground arith);
          observed = h.observed;
          broker = update-IsBelow _ s.broker _ h.broker le;
          committed = update-IsBelow _ s.committed _ h.committed le;
          batch = h.batch;
          failures = h.failures;
        })
        | inr e ↦ simp e h
      ]

panic_guard-IsSafe : (t : Tick) (s : Sink) → IsSafe s → IsSafe (panic_guard t s)
unfolding panic_guard
panic_guard-IsSafe t s h =
    IsSafe-if _ _ s (evacuate-IsSafe panic_threshold false t.panic_commit t.now s h) h

pub cycle-IsSafe :
    (t : Tick) (s : Sink) → AreOrdered s.observed t.polled → IsSafe s → IsSafe (cycle t s)
unfolding cycle
cycle-IsSafe t s o h =
    panic_guard-IsSafe t _ (commit_stale-IsSafe t _ (flush_if_due-IsSafe t _ (poll-IsSafe t s o h)))

-- every round reads in order
abbrev pub RunsInOrder : List Tick → Sink → Type 0
RunsInOrder [] s = Unit
RunsInOrder (t ∷ ticks) s = AreOrdered s.observed t.polled × RunsInOrder ticks (cycle t s)

pub run-IsSafe_from :
    (ticks : List Tick) (s : Sink) → RunsInOrder ticks s → IsSafe s → IsSafe (run ticks s)
unfolding run
run-IsSafe_from [] s o h = h
run-IsSafe_from (t ∷ ticks) s o h = run-IsSafe_from ticks (cycle t s) o.1 (cycle-IsSafe t s o.0 h)

pub initial-IsSafe : (now : ℕ) → IsSafe (initial now)
initial-IsSafe now = record {
  waiting = tt;
  observed = tt;
  broker = tt;
  committed = tt;
  batch = tt;
  failures = omega arith;
}

-- However the database, the broker and the clock behave, after any rounds that read each partition in the order
-- of its offsets: no message that waits in the batch lies before the offset that the broker holds,
-- so a crash now makes Kafka deliver it again; the broker's and the recorded offsets never pass what
-- was observed; and fewer than MAX_CONSECUTIVE_FAILURES failures are pending.
pub run-IsSafe :
    (ticks : List Tick) (now : ℕ)
    → RunsInOrder ticks (initial now)
    → IsSafe (run ticks (initial now))
run-IsSafe ticks now o = run-IsSafe_from ticks (initial now) o (initial-IsSafe now)
