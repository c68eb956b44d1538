-- ===== src/Sink/Settled.antt =====
-- Where `process_batch` of api/kafka_sink.py leaves each entry: stored, or in the dead letter queue.
use ai_cyber_threat_detector.Common.{
  ◌≡◌, refl, List, [], ◌∷◌, ◌++◌, ◌⊎◌, inl, inr, map, Bool-cases, false, is_empty, Option-cases,
}
use ai_cyber_threat_detector.Sink.Payload.{validate, dump_evidence, AlertPayload}
use ai_cyber_threat_detector.Sink.Batch.{
  Entry, Dlq, Table, Driver, Progress, fail_item, store_item, process_item, process_items,
  process_batch, Reason,
}
use ai_cyber_threat_detector.Sink.Loop.{Message, Sink, accepted, add_entry}

-- the entries that a list of records makes
unfoldable pub taken : List Message → List Entry
taken [] = []
taken (m ∷ records) = add_entry (accepted m) [] ++ taken records

-- the entry of the same partition and offset
abbrev pub SamePlace : Entry → Entry → Type 0
SamePlace e f = (e.tp ≡ f.tp) × (e.offset ≡ f.offset)

abbrev pub At : Entry → List Entry → Type 0
At e [] = ⊥
At e (f ∷ l) = SamePlace e f ⊎ At e l

abbrev pub letters : Dlq → List Entry
letters [] = []
letters ((e, reason) ∷ dlq) = e ∷ letters dlq

pub At-append_left : (e : Entry) (l m : List Entry) → At e l → At e (l ++ m)
At-append_left e (f ∷ l) m (inl h) = inl h
At-append_left e (f ∷ l) m (inr h) = inr (At-append_left e l m h)
At-append_left e [] m h = elim h [ ]

pub At-append_right : (e : Entry) (l m : List Entry) → At e m → At e (l ++ m)
At-append_right e [] m h = h
At-append_right e (f ∷ l) m h = inr (At-append_right e l m h)

pub letters-append : (d e : Dlq) → letters (d ++ e) ≡ letters d ++ letters e
letters-append [] e = refl
letters-append ((f, r) ∷ d) e = rw (letters-append d e)

pub letters-map : (r : Reason) (l : List Entry) → letters (map (λ e. (e, r)) l) ≡ l
letters-map r [] = refl
letters-map r (e ∷ l) = rw (letters-map r l)

-- stored, or handed to the dead letter queue
abbrev pub IsSettled : Entry → List Entry → Dlq → Type 0
IsSettled e stored dlq = At e stored ⊎ At e (letters dlq)

abbrev pub IsHeld : Entry → Sink → Type 0
IsHeld e s = At e s.batch ⊎ IsSettled e s.stored s.dlq

module _ (e : Entry) where
  pub IsSettled-more :
      (s t : List Entry) (d f : Dlq) → IsSettled e s d → IsSettled e (s ++ t) (d ++ f)
  IsSettled-more s t d f (inl h) = inl (At-append_left e s t h)
  IsSettled-more s t d f (inr h) = inr (rw (letters-append d f) (At-append_left e _ _ h))

  module _ (d : Driver) (f : Entry) (p : Progress)
      (h : SamePlace e f ⊎ IsSettled e p.stored p.dlq) where
    fail_settles : IsSettled e (fail_item f p).stored (fail_item f p).dlq
    unfolding fail_item
    fail_settles = elim h [
      | inl here ↦
          inr (rw (letters-append p.dlq) (At-append_right e (letters p.dlq) (_ ∷ []) (inl here)))
      | inr (inl s) ↦ inl s
      | inr (inr l) ↦ inr (rw (letters-append p.dlq) (At-append_left e (letters p.dlq) _ l))
    ]

    store_settles :
        (row : AlertPayload) → IsSettled e (store_item f row p).stored (store_item f row p).dlq
    unfolding store_item
    store_settles row = elim h [
      | inl here ↦ inl (At-append_right e p.stored (f ∷ []) (inl here))
      | inr (inl s) ↦ inl (At-append_left e p.stored (f ∷ []) s)
      | inr (inr l) ↦ inr l
    ]

    process_item_settles : IsSettled e (process_item d f p).stored (process_item d f p).dlq
    unfolding process_item
    process_item_settles = elim (Option-cases (validate d.as_float (dump_evidence f.item))) [
      | inl bad ↦ rw (bad, process_item) fail_settles
      | inr (row, good) ↦ elim (Bool-cases (d.flush row)) [
        | inl q ↦ rw (good, process_item) (rw q (store_settles row))
        | inr q ↦ rw (good, process_item) (rw q fail_settles)
      ]
    ]

  pub process_items_settles :
      (d : Driver) (batch : List Entry) (p : Progress)
      → At e batch ⊎ IsSettled e p.stored p.dlq
      → IsSettled e (process_items d batch p).stored (process_items d batch p).dlq
  unfolding process_items
  process_items_settles d [] p (inr h) = h
  process_items_settles d [] p (inl h) = elim h [ ]
  process_items_settles d (f ∷ batch) p (inl (inl here)) =
      process_items_settles d batch _ (inr (process_item_settles d f p (inl here)))
  process_items_settles d (f ∷ batch) p (inl (inr later)) =
      process_items_settles d batch _ (inl later)
  process_items_settles d (f ∷ batch) p (inr h) =
      process_items_settles d batch _ (inr (process_item_settles d f p (inr h)))

module _ (e : Entry) where
  -- what was handed to the file stays there
  pub process_item-letters :
      (d : Driver) (f : Entry) (p : Progress)
      → At e (letters p.dlq)
      → At e (letters (process_item d f p).dlq)
  unfolding process_item store_item fail_item
  process_item-letters d f p h = elim (Option-cases (validate d.as_float (dump_evidence f.item))) [
    | inl bad ↦ rw (bad, process_item) (rw (letters-append p.dlq) (At-append_left e _ _ h))
    | inr (row, good) ↦ elim (Bool-cases (d.flush row)) [
      | inl q ↦ rw (good, process_item) (rw q h)
      | inr q ↦ rw (good, process_item) (rw q (rw (letters-append p.dlq) (At-append_left e _ _ h)))
    ]
  ]

  pub process_items-letters :
      (d : Driver) (batch : List Entry) (p : Progress)
      → At e (letters p.dlq)
      → At e (letters (process_items d batch p).dlq)
  unfolding process_items
  process_items-letters d [] p h = h
  process_items-letters d (f ∷ batch) p h =
      process_items-letters d batch _ (process_item-letters d f p h)

  pub IsSettled-after :
      (stored l : List Entry) (q : Dlq) → IsSettled e l q → IsSettled e (stored ++ l) q
  IsSettled-after stored l q (inl s) = inl (At-append_right e stored l s)
  IsSettled-after stored l q (inr s) = inr s

  module _ (d : Driver) (batch : List Entry) (table : Table) (dlq : Dlq) (stored : List Entry) where
    abbrev result : Progress
    result = process_batch d batch table dlq

    pub batch_keeps : IsSettled e stored dlq → IsSettled e (stored ++ result.stored) result.dlq
    unfolding process_batch
    batch_keeps (inl h) = inl (At-append_left e stored _ h)
    batch_keeps (inr h) = elim (Bool-cases d.commit) [
      | inl q ↦ simp q (inr (process_items-letters d batch _ h))
      | inr q ↦ simp q (inr (process_items-letters d batch _ h))
    ]

    -- offsets to commit mean that the whole batch was settled
    pub batch_settles :
        is_empty result.offsets ≡ false
        → At e batch
        → IsSettled e (stored ++ result.stored) result.dlq
    unfolding process_batch
    batch_settles h a = elim (Bool-cases d.commit) [
      | inl q ↦ simp q (IsSettled-after stored _ _ (process_items_settles e d batch _ (inl a)))
      | inr q ↦ absurd (cc (simp q at h))
    ]
