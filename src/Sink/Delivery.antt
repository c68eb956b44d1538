-- ===== src/Sink/Delivery.antt =====
-- Where an accepted message can be: in the batch, stored, or in the dead letter queue. It is never dropped.
use ai_cyber_threat_detector.Common.{
  ℕ, ◌+◌, ◌≤◌, ◌<◌, ◌≡◌, List, [], ◌∷◌, ◌++◌, ltb, leb, if◌then◌else◌, ◌⊎◌, inl, inr, Bool-cases,
  length, Option, none, some, Bool, true, false, is_empty, ◌||◌, lt→ltb,
}
use ai_cyber_threat_detector.Sink.Offsets.{Offsets, get}
use ai_cyber_threat_detector.Sink.Batch.{
  Entry, process_batch, Reason, database_threshold, commit_threshold, panic_threshold,
}
use ai_cyber_threat_detector.Sink.Loop.{
  Message, Tick, Sink, accepted, add_entry, intake, poll, evacuate, give_up, commit_offsets, flush,
  flush_if_due, commit_stale, panic_guard, cycle, run, max_batch_size, max_consecutive_failures,
}
use ai_cyber_threat_detector.Sink.Intake.{AreWaiting, IsSafe}
use ai_cyber_threat_detector.Sink.Safety.{RunsInOrder, run-IsSafe_from}
use ai_cyber_threat_detector.Sink.Settled.{
  batch_keeps, batch_settles, taken, At, letters, At-append_left, At-append_right, letters-append,
  letters-map, IsSettled, IsHeld,
}

module _ (e : Entry) where
  evacuate-IsHeld :
      (reason : Reason) (noted commit : Bool) (now : ℕ) (s : Sink)
      → IsHeld e s
      → IsHeld e (evacuate reason noted commit now s)
  unfolding evacuate
  evacuate-IsHeld reason noted commit now s h = inr (elim h [
    | inl b ↦ inr (
        rw (letters-append s.dlq, letters-map reason s.batch)
          (At-append_right e (letters s.dlq) s.batch b))
    | inr (inl k) ↦ inl k
    | inr (inr l) ↦ inr (rw (letters-append s.dlq) (At-append_left e _ _ l))
  ])

  give_up-IsHeld :
      (reason : Reason) (commit : Bool) (now : ℕ) (s : Sink)
      → IsHeld e s
      → IsHeld e (give_up reason commit now s)
  unfolding give_up
  give_up-IsHeld reason commit now s h =
      elim (Bool-cases (leb max_consecutive_failures (s.failures + 1))) [
        | inl q ↦ rw q (evacuate-IsHeld reason true commit now _ h)
        | inr q ↦ rw q h
      ]

  flush-IsHeld : (t : Tick) (s : Sink) → IsHeld e s → IsHeld e (flush t s)
  unfolding flush commit_offsets
  flush-IsHeld t s h =
      let p = process_batch t.driver s.batch s.table s.dlq in
      let s' : Sink = record s { table = p.table; dlq = p.dlq; stored = s.stored ++ p.stored } in
      let h' : IsHeld e s' = elim h [
        | inl b ↦ inl b
        | inr k ↦ inr (batch_keeps e t.driver s.batch s.table s.dlq s.stored k)
      ] in
      elim (Bool-cases (is_empty p.offsets)) [
        | inl q ↦ simp q (give_up-IsHeld database_threshold t.evacuation_commit t.now s' h')
        | inr q ↦ elim (Bool-cases (t.attempts.0 || (t.attempts.1 || t.attempts.2))) [
          | inl went ↦
              simp (q, went)
                (inr (elim h [
                  | inl b ↦ batch_settles e t.driver s.batch s.table s.dlq s.stored q b
                  | inr k ↦ batch_keeps e t.driver s.batch s.table s.dlq s.stored k
                ]))
          | inr failed ↦
              simp (q, failed) (give_up-IsHeld commit_threshold t.evacuation_commit t.now s' h')
        ]
      ]

  IsHeld-if : (b : Bool) (s u : Sink) → IsHeld e s → IsHeld e u → IsHeld e (if b then s else u)
  IsHeld-if true s u h k = h
  IsHeld-if false s u h k = k

  intake-IsHeld : (records : List Message) (s : Sink) → IsHeld e s → IsHeld e (intake records s)
  unfolding intake add_entry
  intake-IsHeld [] s h = h
  intake-IsHeld (m ∷ records) s h =
      intake-IsHeld records _
        (elim h [ inl b ↦ inl (At-add_entry (accepted m) s.batch b) | inr k ↦ inr k ])
    where
      At-add_entry : (o : Option Entry) (l : List Entry) → At e l → At e (add_entry o l)
      At-add_entry none l b = b
      At-add_entry (some f) l b = At-append_left e l (f ∷ []) b

  flush_if_due-IsHeld : (t : Tick) (s : Sink) → IsHeld e s → IsHeld e (flush_if_due t s)
  unfolding flush_if_due
  flush_if_due-IsHeld t s h = IsHeld-if _ (flush t s) s (flush-IsHeld t s h) h

  commit_stale-IsHeld : (t : Tick) (s : Sink) → IsHeld e s → IsHeld e (commit_stale t s)
  unfolding commit_stale
  commit_stale-IsHeld t s h = IsHeld-if _ (record s { broker = _; committed = _ }) s h h

  panic_guard-IsHeld : (t : Tick) (s : Sink) → IsHeld e s → IsHeld e (panic_guard t s)
  unfolding panic_guard
  panic_guard-IsHeld t s h =
      IsHeld-if _ _ s (evacuate-IsHeld panic_threshold false t.panic_commit t.now s h) h

  -- all of a round after the poll
  settle-IsHeld :
      (t : Tick) (s : Sink)
      → IsHeld e s
      → IsHeld e (panic_guard t (commit_stale t (flush_if_due t s)))
  settle-IsHeld t s h = panic_guard-IsHeld t _ (commit_stale-IsHeld t _ (flush_if_due-IsHeld t s h))

  pub cycle-IsHeld : (t : Tick) (s : Sink) → IsHeld e s → IsHeld e (cycle t s)
  unfolding cycle poll
  cycle-IsHeld t s h =
      settle-IsHeld t (poll t s) (IsHeld-if _ (intake t.polled s) s (intake-IsHeld t.polled s h) h)

  took :
      (o : Option Entry) (batch l : List Entry)
      → At e (add_entry o [] ++ l)
      → At e (add_entry o batch) ⊎ At e l
  unfolding add_entry
  took none batch l h = inr h
  took (some f) batch l (inl here) = inl (At-append_right e batch (f ∷ []) (inl here))
  took (some f) batch l (inr later) = inr later

  intake_takes :
      (records : List Message) (s : Sink) → At e (taken records) → IsHeld e (intake records s)
  unfolding intake taken
  intake_takes [] s h = elim h [ ]
  intake_takes (m ∷ records) s h = elim (took (accepted m) s.batch (taken records) h) [
    | inl now ↦ intake-IsHeld records _ (inl now)
    | inr later ↦ intake_takes records _ later
  ]

  pub run-IsHeld : (ticks : List Tick) (s : Sink) → IsHeld e s → IsHeld e (run ticks s)
  unfolding run
  run-IsHeld [] s h = h
  run-IsHeld (t ∷ ticks) s h = run-IsHeld ticks (cycle t s) (cycle-IsHeld t s h)

  waiting-At :
      (broker : Offsets) (l : List Entry)
      → AreWaiting broker l
      → At e l
      → get broker e.tp ≤ e.offset
  waiting-At broker (f ∷ l) w (inl (tp, offset)) = rw (tp, offset) w.0
  waiting-At broker (f ∷ l) w (inr later) = waiting-At broker l w.1 later
  waiting-At broker [] w h = elim h [ ]

  cycle_takes :
      (t : Tick) (s : Sink)
      → length s.batch < max_batch_size
      → At e (taken t.polled)
      → IsHeld e (cycle t s)
  unfolding cycle poll
  cycle_takes t s room h =
      let open' : ltb (length s.batch) max_batch_size ≡ true = lt→ltb (length s.batch) 100 room in
      settle-IsHeld t (poll t s) (unfold poll in rw open' (intake_takes t.polled s h))

  -- No accepted message is lost, whatever the database, the broker and the clock do and however many rounds
  -- follow: if the batch has room, so that the round polls, and every partition is read in the order
  -- of its offsets, then an entry that the guards let in is afterwards stored, or was handed to the
  -- dead letter queue, or waits in the batch and the broker's offset is not past it.
  pub run_delivers :
      (t : Tick) (ticks : List Tick) (s : Sink)
      → length s.batch < max_batch_size
      → RunsInOrder (t ∷ ticks) s
      → IsSafe s
      → At e (taken t.polled)
      → IsSettled e (run (t ∷ ticks) s).stored (run (t ∷ ticks) s).dlq
        ⊎ (At e (run (t ∷ ticks) s).batch × (get (run (t ∷ ticks) s).broker e.tp ≤ e.offset))
  unfolding run
  run_delivers t ticks s room order safe h =
      elim (run-IsHeld ticks (cycle t s) (cycle_takes t s room h)) [
        | inl b ↦ inr (b, waiting-At _ _ (run-IsSafe_from (t ∷ ticks) s order safe).waiting b)
        | inr k ↦ inl k
      ]
