-- ===== src/Ingest/Counts.antt =====
-- What the metrics and the topics of ingest/tail_to_redpanda.py say of the lines that were read.
use ai_cyber_threat_detector.Common.{
  ℕ, ◌+◌, ◌≡◌, refl, ap, true, false, List, [], ◌∷◌, String, str_eq, if◌then◌else◌, Bool-cases, inl,
  inr, arith,
}
use ai_cyber_threat_detector.Common.Dict.{Dict}
use ai_cyber_threat_detector.Common.Text.{strip}
use ai_cyber_threat_detector.Detection.Event.{Value}
use ai_cyber_threat_detector.Ingest.Tail.{
  Decoded, object, no_object, invalid, Turn, Tailer, fresh, validate_zeek_event, reject, publish,
  ship, turn, tail,
}

-- one for a text that is not empty
unfoldable pub one : String → ℕ
one s = if str_eq s "" then 0 else 1

-- the lines among the turns, and those with content
unfoldable pub lines : List Turn → ℕ
lines [] = 0
lines (t ∷ turns) = one t.line + lines turns

unfoldable pub contents : List Turn → ℕ
contents [] = 0
contents (t ∷ turns) = (if str_eq t.line "" then 0 else one (strip t.line)) + contents turns

-- the line is published or rejected, and what is published is on its topic
record Shipped (s s' : Tailer) : Type 0 where
  read : s'.read ≡ s.read
  total : s'.published + s'.rejected ≡ s.published + s.rejected + 1

reject-Shipped : (t : Turn) (s : Tailer) → Shipped s (reject t s)
unfolding reject
reject-Shipped t s = record { read = ground arith; total = ground arith }

module _ (sensor_id log_type : String) where
  publish-Shipped :
      (t : Turn) (event : Dict Value) (s : Tailer)
      → Shipped s (publish sensor_id log_type t event s)
  unfolding publish
  publish-Shipped t event s = record {
    read = ground (arith, (reject-Shipped t s).read);
    total = ground (arith, (reject-Shipped t s).total);
  }

  ship-Shipped : (t : Turn) (s : Tailer) → Shipped s (ship sensor_id log_type t s)
  unfolding ship
  ship-Shipped t s = go t.decoded refl
    where
      go : (d : Decoded) → t.decoded ≡ d → Shipped s (ship sensor_id log_type t s)
      go (object event) e = elim (Bool-cases (validate_zeek_event event)) [
        | inl f ↦ rw (e, ship) (rw f (publish-Shipped t event s))
        | inr f ↦ rw (e, ship) (rw f (reject-Shipped t s))
      ]
      go no_object e = rw (e, ship) (reject-Shipped t s)
      go invalid e = rw (e, ship) (reject-Shipped t s)

  turn_counts :
      (t : Turn) (s : Tailer)
      → ((turn sensor_id log_type t s).read ≡ s.read + one t.line)
        × ((turn sensor_id log_type t s).published + (turn sensor_id log_type t s).rejected
            ≡ s.published + s.rejected + (if str_eq t.line "" then 0 else one (strip t.line)))
  unfolding turn one
  turn_counts t s =
      let shipped = ship-Shipped t (record s { read = s.read + 1 }) in
      (ground (arith, shipped.read), ground (arith, shipped.total))

  tail_stopped :
      (t : Turn) (turns : List Turn) (s : Tailer)
      → s.stopped ≡ true
      → tail sensor_id log_type (t ∷ turns) s ≡ s
  unfolding tail
  tail_stopped t turns s e = simp e

  tail_runs :
      (t : Turn) (turns : List Turn) (s : Tailer)
      → s.stopped ≡ false
      → tail sensor_id log_type (t ∷ turns) s
        ≡ tail sensor_id log_type turns (turn sensor_id log_type t s)
  unfolding tail
  tail_runs t turns s e = simp e

  tail_counts :
      (turns : List Turn) (s : Tailer)
      → (tail sensor_id log_type turns s).stopped ≡ false
      → ((tail sensor_id log_type turns s).read ≡ s.read + lines turns)
        × ((tail sensor_id log_type turns s).published + (tail sensor_id log_type turns s).rejected
            ≡ s.published + s.rejected + contents turns)
  unfolding tail lines contents
  tail_counts [] s h = (omega arith, omega arith)
  tail_counts (t ∷ turns) s h = elim (Bool-cases s.stopped) [
    | inl e ↦ absurd (cc (ap (λ x. x.stopped) (tail_stopped t turns s e), h, e))
    | inr e ↦
        let step = tail_runs t turns s e in
        let ahead = turn sensor_id log_type t s in
        let later = tail_counts turns ahead (rw step at h) in
        let here = turn_counts t s in
        rw step (omega (arith, later.0, here.0), omega (arith, later.1, here.1))
  ]

  -- If no exception left the loop, the metrics account for every line: the lines read are all that came, and each one
  -- with content is either published or rejected, and not both.
  pub tail_accounts :
      (turns : List Turn)
      → (tail sensor_id log_type turns fresh).stopped ≡ false
      → ((tail sensor_id log_type turns fresh).read ≡ lines turns)
        × ((tail sensor_id log_type turns fresh).published
              + (tail sensor_id log_type turns fresh).rejected
            ≡ contents turns)
  tail_accounts turns h =
      let counts = tail_counts turns fresh h in (omega (arith, counts.0), omega (arith, counts.1))
