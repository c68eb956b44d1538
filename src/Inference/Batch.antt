-- ===== src/Inference/Batch.antt =====
-- What the batch of `predict` in inference/models.py shows of each variant of a domain.
use mathlib.Core.List.{Memᴰ}
use native.Mathlib.Nat.{div-mul-le_self, mul-suc}
use ai_cyber_threat_detector.Common.{
  ℕ, zero, suc, ◌+◌, ◌*◌, ◌/◌, ◌≤◌, ◌<◌, max, ◌≡◌, refl, false, List, [], ◌∷◌, String, length, take,
  is_empty, All, Bool-cases, Mem-left, Mem-right, inl, inr, arith, length-append, length-take,
  take_of_length-le, All-append,
}
use ai_cyber_threat_detector.Inference.Encode.{encode}
use ai_cyber_threat_detector.Inference.Slices.{
  domain_slices, slices_of, all_slices_of, budget_per_domain, all_slices,
}
use ai_cyber_threat_detector.Inference.Windows.{IsSlice, IsShown}
use ai_cyber_threat_detector.Inference.Coverage.{domain_slices-IsShown, domain_slices-IsSlice}

All-take : (n : ℕ) (xs : List (List ℕ)) → All IsSlice xs → All IsSlice (take n xs)
All-take zero xs h = tt
All-take (suc n) [] h = tt
All-take (suc n) (x ∷ xs) h = (h.0, All-take n xs h.1)

not_empty : (e : List ℕ) (i : ℕ) → i < length e → is_empty e ≡ false
not_empty [] i h = absurd (omega (arith, h))
not_empty (x ∷ e) i h = refl

module _ (b : ℕ) (budget : 1 ≤ b) where
  slices_of-IsSlice : (d : String) → All IsSlice (slices_of b d)
  unfolding slices_of
  slices_of-IsSlice d = elim (Bool-cases (is_empty (encode d))) [
    | inl f ↦ rw f tt
    | inr f ↦
        rw f (All-take b (domain_slices b (encode d)) (domain_slices-IsSlice b (encode d) budget))
  ]

  all_slices_of-IsSlice : (ds : List String) → All IsSlice (all_slices_of b ds)
  unfolding all_slices_of
  all_slices_of-IsSlice [] = tt
  all_slices_of-IsSlice (d ∷ ds) =
      All-append IsSlice (slices_of b d) (all_slices_of b ds) (slices_of-IsSlice d)
        (all_slices_of-IsSlice ds)

  slices_of_fits : (d : String) → length (slices_of b d) ≤ b
  unfolding slices_of
  slices_of_fits d = elim (Bool-cases (is_empty (encode d))) [
    | inl f ↦ rw f (omega arith)
    | inr f ↦ rw f (omega (arith, length-take b (domain_slices b (encode d))))
  ]

  all_slices_of_fits : (ds : List String) → length (all_slices_of b ds) ≤ b * length ds
  unfolding all_slices_of
  all_slices_of_fits [] = omega arith
  all_slices_of_fits (d ∷ ds) = omega (
    arith,
    length-append (slices_of b d) (all_slices_of b ds),
    slices_of_fits d,
    all_slices_of_fits ds,
    mul-suc b (length ds),
  )

  slices_of-IsShown :
      (d : String) (i : ℕ)
      → i < length (encode d)
      → i < 20 + 15 * b
      → IsShown (encode d) i (slices_of b d)
  unfolding slices_of
  slices_of-IsShown d i within near =
      let some_code : is_empty (encode d) ≡ false = not_empty (encode d) i within in
      rw some_code (domain_slices-IsShown b (encode d) budget i within near)

  all_slices_of-IsShown :
      (ds : List String) (d : String) (i : ℕ)
      → Memᴰ d ds
      → i < length (encode d)
      → i < 20 + 15 * b
      → IsShown (encode d) i (all_slices_of b ds)
  unfolding all_slices_of
  all_slices_of-IsShown [] d i m within near = elim m [ ]
  all_slices_of-IsShown (e ∷ ds) d i (Memᴰ.head same) within near =
      let (k, lo, hi, m) = slices_of-IsShown d i within near in
      (k, lo, hi, rw (← same) (Mem-left _ (slices_of b d) (all_slices_of b ds) m))
  all_slices_of-IsShown (e ∷ ds) d i (Memᴰ.tail there) within near =
      let (k, lo, hi, m) = all_slices_of-IsShown ds d i there within near in
      (k, lo, hi, Mem-right _ (slices_of b e) (all_slices_of b ds) m)

budget_positive : (ds : List String) → 1 ≤ budget_per_domain ds
budget_positive ds = omega arith

share_fits : (x n : ℕ) → x * n ≤ 32 → n ≤ 32 → max 1 x * n ≤ 32
share_fits zero n h k = omega (arith, k)
share_fits (suc x) n h k = let itself : max 1 (suc x) ≡ suc x = omega arith in rw itself h

-- the shares of at most eight variants stay within 32
budget_fits : (ds : List String) → length ds ≤ 8 → budget_per_domain ds * length ds ≤ 32
budget_fits ds h =
    share_fits (32 / length ds) (length ds) (div-mul-le_self 32 (length ds)) (omega (arith, h))

-- the cut to 32 never cuts
uncut :
    (domains : List String)
    → all_slices domains ≡ all_slices_of (budget_per_domain (take 8 domains)) (take 8 domains)
unfolding all_slices
uncut domains =
    let subset = take 8 domains in
    let b = budget_per_domain subset in
    take_of_length-le 32 (all_slices_of b subset) (
      omega (
        arith,
        all_slices_of_fits b (budget_positive subset) subset,
        budget_fits subset (omega (arith, length-take 8 domains)),
      ))

-- The batch is what the network takes: every slice has exactly 35 characters, and there are at most 32 of them.
pub all_slices-IsSlice :
    (domains : List String) → All IsSlice (all_slices domains) × (length (all_slices domains) ≤ 32)
unfolding all_slices
all_slices-IsSlice domains = (
  rw (uncut domains) (
      all_slices_of-IsSlice (budget_per_domain (take 8 domains)) (budget_positive (take 8 domains))
        (take 8 domains)),
  omega
      (arith, length-take 32 (all_slices_of (budget_per_domain (take 8 domains)) (take 8 domains))),
)

-- No variant is crowded out: of each of the first eight variants, with a share of `b` slices of the budget, every character
-- up to position 20 + 15 * b is in a slice of the batch that stands around it. For eight variants that is 80 characters,
-- for one it is 500.
pub all_slices-IsShown :
    (domains : List String) (d : String) (i : ℕ)
    → Memᴰ d (take 8 domains)
    → i < length (encode d)
    → i < 20 + 15 * budget_per_domain (take 8 domains)
    → IsShown (encode d) i (all_slices domains)
all_slices-IsShown domains d i m within near = rw (uncut domains) (
    all_slices_of-IsShown (budget_per_domain (take 8 domains)) (budget_positive (take 8 domains))
      (take 8 domains) d i m within near)
