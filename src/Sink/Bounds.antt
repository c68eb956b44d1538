-- ===== src/Sink/Bounds.antt =====
-- Offset maps whose entries lie below a bound by partition.
use ai_cyber_threat_detector.Common.{
  ℕ, suc, ◌≤◌, ◌≡◌, List, [], ◌∷◌, All, arith, ltb, ◌==◌, Bool-cases, inl, inr,
}
use ai_cyber_threat_detector.Sink.Offsets.{Offsets, get, put, advance, update, stale}
use ai_cyber_threat_detector.Sink.Batch.{
  Entry, Driver, Progress, fail_item, store_item, process_item, process_items, process_batch, Table,
  Dlq,
}
use ai_cyber_threat_detector.Sink.Loop.{max_offsets}

abbrev pub IsBelow : (ℕ → ℕ) → Offsets → Type 0
IsBelow B = All (λ e. e.1 ≤ B e.0)

-- every entry's offset lies below
abbrev pub AreBelow : (ℕ → ℕ) → List Entry → Type 0
AreBelow B = All (λ e. suc e.offset ≤ B e.tp)

-- each round advances the entry's partition, whether the entry is stored or fails
offsets-process_item :
    (d : Driver) (e : Entry) (p : Progress)
    → (process_item d e p).offsets ≡ advance p.offsets e.tp e.offset
unfolding process_item fail_item store_item
offsets-process_item d e p = ground arith

module _ (B : ℕ → ℕ) where
  pub get-le : (m : Offsets) (q : ℕ) → IsBelow B m → get m q ≤ B q
  unfolding get
  get-le [] q h = omega arith
  get-le ((p, o) ∷ m) q h = ground (arith, get-le m q h.1)

  pub put-IsBelow : (m : Offsets) (p o : ℕ) → o ≤ B p → IsBelow B m → IsBelow B (put m p o)
  unfolding put
  put-IsBelow [] p o le h = (le, tt)
  put-IsBelow ((q, n) ∷ m) p o le h = elim (Bool-cases (q == p)) [
    | inl e ↦ rw e (ground arith, h.1)
    | inr e ↦ rw e (h.0, put-IsBelow m p o le h.1)
  ]

  pub advance-IsBelow :
      (m : Offsets) (p o : ℕ) → suc o ≤ B p → IsBelow B m → IsBelow B (advance m p o)
  unfolding advance
  advance-IsBelow m p o le h = put-IsBelow m p _ (omega (arith, get-le m p h)) h

  pub update-IsBelow : (m new : Offsets) → IsBelow B m → IsBelow B new → IsBelow B (update m new)
  unfolding update
  update-IsBelow m [] h k = h
  update-IsBelow m ((p, o) ∷ new) h k = update-IsBelow (put m p o) new (put-IsBelow m p o k.0 h) k.1

  pub stale-IsBelow : (c m : Offsets) → IsBelow B m → IsBelow B (stale c m)
  unfolding stale
  stale-IsBelow c [] h = tt
  stale-IsBelow c ((p, o) ∷ m) h = elim (Bool-cases (ltb (get c p) o)) [
    | inl e ↦ rw e (h.0, stale-IsBelow c m h.1)
    | inr e ↦ rw e (stale-IsBelow c m h.1)
  ]

  pub max_offsets-IsBelow :
      (batch : List Entry) (m : Offsets)
      → AreBelow B batch
      → IsBelow B m
      → IsBelow B (max_offsets batch m)
  unfolding max_offsets
  max_offsets-IsBelow [] m a h = h
  max_offsets-IsBelow (e ∷ batch) m a h =
      max_offsets-IsBelow batch _ a.1 (advance-IsBelow m e.tp e.offset a.0 h)

module _ (B : ℕ → ℕ) where
  process_items-IsBelow :
      (d : Driver) (batch : List Entry) (p : Progress)
      → AreBelow B batch
      → IsBelow B p.offsets
      → IsBelow B (process_items d batch p).offsets
  unfolding process_items
  process_items-IsBelow d [] p a h = h
  process_items-IsBelow d (e ∷ batch) p a h =
      process_items-IsBelow d batch (process_item d e p) a.1
        (rw (offsets-process_item d e p) (advance-IsBelow B p.offsets e.tp e.offset a.0 h))

  pub process_batch-IsBelow :
      (d : Driver) (batch : List Entry) (t : Table) (dlq : Dlq)
      → AreBelow B batch
      → IsBelow B (process_batch d batch t dlq).offsets
  unfolding process_batch
  process_batch-IsBelow d batch t dlq a = elim (Bool-cases d.commit) [
    | inl e ↦ simp e (process_items-IsBelow d batch _ a tt)
    | inr e ↦ simp e tt
  ]

module _ {B C : ℕ → ℕ} (le : (q : ℕ) → B q ≤ C q) where
  pub IsBelow-mono : (m : Offsets) → IsBelow B m → IsBelow C m
  IsBelow-mono [] h = tt
  IsBelow-mono (e ∷ m) h = (omega (arith, le e.0, h.0), IsBelow-mono m h.1)

  pub AreBelow-mono : (l : List Entry) → AreBelow B l → AreBelow C l
  AreBelow-mono [] h = tt
  AreBelow-mono (e ∷ l) h = (omega (arith, le e.tp, h.0), AreBelow-mono l h.1)
