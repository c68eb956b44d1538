-- ===== src/Examples/Batches.antt =====
-- One message through the sink of api/kafka_sink.py.
use ai_cyber_threat_detector.Common.{
  zero, suc, ℕ, ◌≡◌, ◌≤◌, ◌⊎◌, inl, refl, true, false, Option, none, some, [], ◌∷◌, arith,
}
use ai_cyber_threat_detector.Common.Dict
use ai_cyber_threat_detector.Common.Dict.{Dict}
use ai_cyber_threat_detector.Sink.Payload.{Field, number, text, truthy, dump_evidence}
use ai_cyber_threat_detector.Sink.Offsets.{get}
use ai_cyber_threat_detector.Sink.Batch.{Entry, Driver, process_batch}
use ai_cyber_threat_detector.Sink.Loop.{Message, Tick, accepted, add_entry, initial, run}
use ai_cyber_threat_detector.Sink.Intake.{IsSafe}
use ai_cyber_threat_detector.Sink.Safety.{initial-IsSafe, run-IsSafe}
use ai_cyber_threat_detector.Sink.Settled.{taken, At, IsSettled}
use ai_cyber_threat_detector.Sink.Delivery.{run_delivers}
use ai_cyber_threat_detector.Sink.Rows.{
  IsIndexed, find, process_batch-process_batch, process_batch-IsIndexed,
}
use ai_cyber_threat_detector.Sink.Rotation.{Files}

abbrev as_float : Field → Option ℕ
as_float (number n) = some n
as_float _ = none

abbrev item : Dict Field
item =
    ("alert_id", text "a1")
    ∷ ("event_type", text "conn")
    ∷ ("timestamp", text "t")
    ∷ ("threat_class", text "DDoS")
    ∷ ("severity", text "critical")
    ∷ ("confidence_score", number 95)
    ∷ ("source_ip", text "10.0.0.5")
    ∷ []

abbrev driver : Driver
driver = record { as_float = as_float; flush = λ row. true; commit = true }

abbrev entry : Entry
entry = record { item = item; tp = 0; offset = 7 }

abbrev message : Message
message = record { tp = 0; offset = 7; size = 200; decoded = some item }

abbrev tick : Tick
tick = record {
  polled = message ∷ [];
  now = 10;
  driver = driver;
  attempts = (false, false, true);
  evacuation_commit = true;
  stale_commit = true;
  panic_commit = true;
}

-- the first transaction is not committed
process_batch-process_batch_example :
    find "a1"
      (process_batch driver
        (entry ∷ [])
        (process_batch (record driver { commit = false }) (entry ∷ []) [] []).table
        []).table
    ≡ find "a1" (process_batch driver (entry ∷ []) [] []).table
process_batch-process_batch_example =
    process_batch-process_batch (record driver { commit = false }) driver refl (λ row. refl)
      (entry ∷ []) [] [] [] "a1" refl

process_batch-IsIndexed_example : IsIndexed (process_batch driver (entry ∷ []) [] []).table
process_batch-IsIndexed_example = process_batch-IsIndexed driver (entry ∷ []) [] [] tt

run-IsSafe_example : IsSafe (run (tick ∷ []) (initial 0))
unfolding get
run-IsSafe_example = run-IsSafe (tick ∷ []) 0 ((omega arith, tt), tt)

run_delivers_example :
    IsSettled entry (run (tick ∷ []) (initial 0)).stored (run (tick ∷ []) (initial 0)).dlq
    ⊎ (At entry (run (tick ∷ []) (initial 0)).batch
        × (get (run (tick ∷ []) (initial 0)).broker 0 ≤ 7))
unfolding taken add_entry accepted truthy dump_evidence get Dict.get
run_delivers_example =
    run_delivers entry tick [] (initial 0) (omega arith) ((omega arith, tt), tt) (initial-IsSafe 0)
      (inl (refl, refl))

abbrev letters_of : Files
letters_of zero = some "full"
letters_of (suc zero) = some "older"
letters_of (suc (suc i)) = none
