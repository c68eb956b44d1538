-- ===== src/Inference/Coverage.antt =====
-- What of a domain the slices of `predict` in inference/models.py show.
use mathlib.Core.List.{Memᴰ, append-nil}
use ai_cyber_threat_detector.Common.{
  ℕ, ◌+◌, ◌-◌, ◌*◌, ◌/◌, ◌%◌, ◌≤◌, ◌<◌, min, ◌≡◌, refl, true, false, not, ◌&&◌, List, [], ◌∷◌, ◌++◌,
  if◌then◌else◌, ltb, ◌==◌, length, take, drop, replicate, All, Bool-cases, both, Mem-left,
  Mem-right, inl, inr, arith, length-append, length-drop, length-replicate, take_of_length-le,
  All-append, ltb→lt, lt→ltb, Bool,
}
use ai_cyber_threat_detector.Inference.Slices.{windows, starts, domain_slices}
use ai_cyber_threat_detector.Inference.Windows.{
  IsSlice, padded, IsShown, length-windows, windows-IsSlice, windows-mem,
}

module _ (b : ℕ) (e : List ℕ) (budget : 1 ≤ b) where
  quotient : (n : ℕ) → (15 * (n / 15) ≤ n) × (n < 15 * (n / 15) + 15)
  quotient n = (omega arith, omega arith)

  padded-length : length e ≤ 35 → length (padded e) ≡ 35
  padded-length h = omega (
    arith,
    h,
    length-append e (replicate (35 - length e) 0),
    length-replicate {A = ℕ} (35 - length e) 0,
  )

  padded_long : 35 < length e → padded e ≡ e
  padded_long h =
      let none_left : 35 - length e ≡ 0 = omega (arith, h) in rw none_left (append-nil e)

  -- A long domain whose windows leave a rest has the last 35 characters as one more slice.
  abbrev has_tail : Bool
  has_tail = ltb (length (windows b (starts e) 0 e)) b && not ((length e - 35) % 15 == 0)

  abbrev long_slices : List (List ℕ)
  long_slices =
      if has_tail
      then windows b (starts e) 0 e ++ drop (length e - 35) e ∷ []
      else windows b (starts e) 0 e

  domain_slices_long : 35 < length e → domain_slices b e ≡ long_slices
  unfolding domain_slices
  domain_slices_long h = rw (lt→ltb 35 (length e) h) refl

  domain_slices_short : length e ≤ 35 → domain_slices b e ≡ padded e ∷ []
  unfolding domain_slices
  domain_slices_short h = let no : ltb 35 (length e) ≡ false = ground (arith, h) in rw no refl

  -- the budget is kept before the cut
  long_slices-length : length long_slices ≤ b
  long_slices-length = elim (Bool-cases has_tail) [
    | inl f ↦ rw f (
        let (below, rest) =
          both (ltb (length (windows b (starts e) 0 e)) b) (not ((length e - 35) % 15 == 0)) f in
        omega (
          arith,
          ltb→lt (length (windows b (starts e) 0 e)) b below,
          length-append (windows b (starts e) 0 e) (drop (length e - 35) e ∷ []),
        ))
    | inr f ↦ rw f (omega (arith, length-windows b (starts e) 0 e budget))
  ]

  window-mem :
      (j : ℕ)
      → 35 < length e
      → j < b
      → j < starts e
      → Memᴰ (take 35 (drop (15 * j) (padded e))) long_slices
  window-mem j long h k =
      let none_before : 0 + 15 * j ≡ 15 * j = omega arith in
      let m = rw none_before at (windows-mem b (starts e) 0 j e h k) in
      rw (padded_long long) (elim (Bool-cases has_tail) [
        | inl f ↦ rw f (
            Mem-left (take 35 (drop (15 * j) e)) (windows b (starts e) 0 e)
              (drop (length e - 35) e ∷ []) m)
        | inr f ↦ rw f m
      ])

  tail-mem :
      35 < length e → has_tail ≡ true → Memᴰ (take 35 (drop (length e - 35) (padded e))) long_slices
  tail-mem long f =
      let short : length (drop (length e - 35) e) ≤ 35 =
        omega (arith, long, length-drop (length e - 35) e) in
      rw (padded_long long, f)
        (Mem-right _ (windows b (starts e) 0 e) (drop (length e - 35) e ∷ [])
          (Memᴰ.head (take_of_length-le 35 (drop (length e - 35) e) short)))

  -- where no window stands, the last one leaves a rest, and the budget has room for it
  tail-present :
      (i : ℕ)
      → 35 < length e
      → i < length e
      → i < 20 + 15 * b
      → 35 + 15 * ((length e - 35) / 15) ≤ i
      → has_tail ≡ true
  tail-present i long within near past =
      let d = length-windows b (starts e) 0 e budget in
      let room : length (windows b (starts e) 0 e) < b = omega (arith, d, within, near, past) in
      let rest : ((length e - 35) % 15 == 0) ≡ false = ground (arith, within, past) in
      rw (lt→ltb (length (windows b (starts e) 0 e)) b room, rest) refl

  IsShown-long : (i : ℕ) → 35 < length e → i < length e → i < 20 + 15 * b → IsShown e i long_slices
  IsShown-long i long within near =
      let q = (length e - 35) / 15 in
      let j = min (i / 15) (min q (b - 1)) in
      elim (Bool-cases (ltb i (15 * j + 35))) [
        | inl f ↦ (
          15 * j,
          omega (arith, quotient i),
          omega (arith, ltb→lt i (15 * j + 35) f),
          window-mem j long (omega (arith, budget)) (omega arith),
        )
        | inr f ↦
            let past : 35 + 15 * q ≤ i = ground (arith, f, quotient i, near, budget) in
            (
              length e - 35,
              omega (arith, past, quotient (length e - 35)),
              omega (arith, within, long),
              tail-mem long (tail-present i long within near past),
            )
      ]

  -- Every position of a domain's code that is less than 20 + 15 * b is shown.
  pub domain_slices-IsShown :
      (i : ℕ) → i < length e → i < 20 + 15 * b → IsShown e i (take b (domain_slices b e))
  domain_slices-IsShown i within near = elim (Bool-cases (ltb 35 (length e))) [
    | inl f ↦
        let long = ltb→lt 35 (length e) f in
        rw (domain_slices_long long, take_of_length-le b long_slices long_slices-length)
          (IsShown-long i long within near)
    | inr f ↦
        let short : length e ≤ 35 = ground (arith, f) in
        let exact : length (padded e) ≤ 35 = omega (arith, padded-length short) in
        rw (domain_slices_short short, take_of_length-le b (padded e ∷ []) budget)
          (
            0,
            omega arith,
            omega (arith, within, short),
            Memᴰ.head (take_of_length-le 35 (padded e) exact),
          )
  ]

  long_slices-IsSlice : 35 < length e → All IsSlice long_slices
  long_slices-IsSlice long =
      let inner =
        windows-IsSlice b (starts e) 0 e (omega (arith, long, quotient (length e - 35))) in
      elim (Bool-cases has_tail) [
        | inl f ↦ rw f (
            All-append IsSlice (windows b (starts e) 0 e) (drop (length e - 35) e ∷ []) inner
              (omega (arith, long, length-drop (length e - 35) e), tt))
        | inr f ↦ rw f inner
      ]

  pub domain_slices-IsSlice : All IsSlice (domain_slices b e)
  domain_slices-IsSlice = elim (Bool-cases (ltb 35 (length e))) [
    | inl f ↦
        let long = ltb→lt 35 (length e) f in rw (domain_slices_long long) (long_slices-IsSlice long)
    | inr f ↦
        let short : length e ≤ 35 = ground (arith, f) in
        rw (domain_slices_short short) (padded-length short, tt)
  ]
