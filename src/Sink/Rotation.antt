-- ===== src/Sink/Rotation.antt =====
-- `_rotate_dlq_if_needed` of api/kafka_sink.py: the dead letter file and its numbered predecessors. A file system
-- that refuses a step, which is logged, is left out.
use ai_cyber_threat_detector.Common.{
  ℕ, zero, suc, ◌-◌, ◌*◌, ◌≤◌, ◌<◌, ◌≡◌, refl, ◌∙◌, false, Option, none, some, String, ltb, ◌==◌,
  is_some, if◌then◌else◌, Bool-cases, inl, inr, ◌⊎◌, arith,
}

-- What DLQ_PATH holds, at 0, and what DLQ_PATH.i holds, at i.
abbrev pub Files : Type 0
Files = ℕ → Option String

-- os.replace
unfoldable pub replace : ℕ → ℕ → Files → Files
replace src dst files j = if j == dst then files src else if j == src then none else files j

-- for i in range(DLQ_ROTATE_COUNT - 1, 0, -1), from `n` down
unfoldable pub shift : ℕ → Files → Files
shift zero files = files
shift (suc i) files =
    shift i (if is_some (files (suc i)) then replace (suc i) (suc (suc i)) files else files)

-- open(DLQ_PATH, 'a')
unfoldable pub create : Files → Files
create files j =
    if j == 0 then (elim (files 0) [ none ↦ some "" | some text ↦ some text ]) else files j

unfoldable pub rotate : (dlq_rotate_count : ℕ) → Files → Files
rotate dlq_rotate_count files = create (replace 0 1 (shift (dlq_rotate_count - 1) files))

-- `size` is the size of a file in bytes
unfoldable pub rotate_dlq_if_needed :
    (size : String → ℕ) (dlq_max_size_mb dlq_rotate_count : ℕ) → Files → Files
rotate_dlq_if_needed size dlq_max_size_mb dlq_rotate_count files = elim (files 0) [
  | none ↦ files
  | some text ↦
      if ltb (dlq_max_size_mb * (1024 * 1024)) (size text)
      then rotate dlq_rotate_count files
      else files
]

shift_above : (n : ℕ) (files : Files) (j : ℕ) → suc n < j → shift n files j ≡ files j
unfolding shift replace
shift_above zero files j h = refl
shift_above (suc i) files j h = elim (Bool-cases (is_some (files (suc i)))) [
  | inl e ↦ rw e (ground (arith, shift_above i (replace (suc i) (suc (suc i)) files) j))
  | inr e ↦ rw e (shift_above i files j (omega arith))
]

shift_zero : (n : ℕ) (files : Files) → shift n files 0 ≡ files 0
unfolding shift replace
shift_zero zero files = refl
shift_zero (suc i) files = elim (Bool-cases (is_some (files (suc i)))) [
  | inl e ↦ rw e (ground (arith, shift_zero i (replace (suc i) (suc (suc i)) files)))
  | inr e ↦ rw e (shift_zero i files)
]

replace_other :
    (a b : ℕ) (files : Files) (j : ℕ)
    → (j == a) ≡ false
    → (j == b) ≡ false
    → replace a b files j ≡ files j
unfolding replace
replace_other a b files j h k = rw (k, h) refl

replace_dst : (a b : ℕ) (files : Files) → replace a b files b ≡ files a
unfolding replace
replace_dst a b files = ground arith

shift_top :
    (m : ℕ) (files : Files) (text : String)
    → files (suc m) ≡ some text
    → shift (suc m) files (suc (suc m)) ≡ some text
unfolding shift
shift_top m files text h =
    rw (h, shift)
      (shift_above m (replace (suc m) (suc (suc m)) files) (suc (suc m)) (omega arith)
        ∙ replace_dst (suc m) (suc (suc m)) files
        ∙ h)

shift_moves :
    (n : ℕ) (files : Files) (i : ℕ) (text : String)
    → 0 < i
    → i ≤ n
    → files i ≡ some text
    → shift n files (suc i) ≡ some text
unfolding shift
shift_moves zero files i text pos le h = absurd (omega arith)
shift_moves (suc m) files i text pos le h = elim (Bool-cases (i == suc m)) [
  | inl e ↦ let same : i ≡ suc m = ground arith in rw same (shift_top m files text (rw same at h))
  | inr e ↦ elim (Bool-cases (is_some (files (suc m)))) [
    | inl f ↦ rw f (
        shift_moves m (replace (suc m) (suc (suc m)) files) i text pos (ground arith)
          (replace_other (suc m) (suc (suc m)) files i e (ground arith) ∙ h))
    | inr f ↦ rw f (shift_moves m files i text pos (ground arith) h)
  ]
]

-- A rotation of `n` files loses nothing but the oldest: the dead letters of every file before it are afterwards in the
-- file with the next number, and a new, empty file takes their place at the front.
pub rotate_keeps :
    (n : ℕ) (files : Files) (i : ℕ) (text : String)
    → (i < n) ⊎ (i ≡ 0)
    → files i ≡ some text
    → (rotate n files (suc i) ≡ some text) × (rotate n files 0 ≡ some "")
unfolding rotate create replace
rotate_keeps n files zero text h e = (shift_zero (n - 1) files ∙ e, refl)
rotate_keeps n files (suc i) text (inl h) e =
    let old = shift_moves (n - 1) files (suc i) text (omega arith) (omega arith) e in
    (ground (arith, old), refl)
rotate_keeps n files (suc i) text (inr h) e = absurd (omega arith)
