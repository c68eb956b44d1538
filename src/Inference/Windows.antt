-- ===== src/Inference/Windows.antt =====
-- The windows that the loop of `predict` in inference/models.py cuts.
use mathlib.Core.List.{Memᴰ}
use ai_cyber_threat_detector.Common.{
  ℕ, zero, suc, ◌+◌, ◌-◌, ◌*◌, ◌≤◌, ◌<◌, min, ◌≡◌, refl, false, List, [], ◌++◌, if◌then◌else◌, leb,
  length, take, drop, replicate, All, Bool-cases, inl, inr, arith, length-take, length-drop,
}
use ai_cyber_threat_detector.Inference.Slices.{windows}

abbrev pub IsSlice : List ℕ → Type 0
IsSlice slice = length slice ≡ 35

-- the code of a domain, with zeros behind it up to 35
abbrev pub padded : List ℕ → List ℕ
padded encoded = encoded ++ replicate (35 - length encoded) 0

-- a slice that stands around the position `i` is among `slices`
abbrev pub IsShown : List ℕ → ℕ → List (List ℕ) → Type 0
IsShown encoded i slices =
    (k : ℕ) × (k ≤ i) × (i < k + 35) × Memᴰ (take 35 (drop k (padded encoded))) slices

pub length-windows : (b n s : ℕ) (e : List ℕ) → 1 ≤ b → length (windows b n s e) ≡ min b n
unfolding windows
length-windows b zero s e h = omega arith
length-windows b (suc n) s e h = elim (Bool-cases (leb b 1)) [
  | inl f ↦ rw f (ground (arith, h, f))
  | inr f ↦ rw f (ground (arith, h, f, length-windows (b - 1) n (s + 15) e (ground (arith, f))))
]

-- the rest of the loop, if there is one
rest-IsSlice :
    (b n s : ℕ) (e : List ℕ)
    → s + 15 * suc n + 20 ≤ length e
    → (s + 15 + 15 * n + 20 ≤ length e → All IsSlice (windows (b - 1) n (s + 15) e))
    → All IsSlice (if leb b 1 then [] else windows (b - 1) n (s + 15) e)
rest-IsSlice b n s e h rest = elim (Bool-cases (leb b 1)) [
  | inl f ↦ rw f tt
  | inr f ↦ rw f (rest (omega (arith, h)))
]

pub windows-IsSlice :
    (b n s : ℕ) (e : List ℕ) → s + 15 * n + 20 ≤ length e → All IsSlice (windows b n s e)
unfolding windows
windows-IsSlice b zero s e h = tt
windows-IsSlice b (suc n) s e h = (
  omega (arith, h, length-take 35 (drop s e), length-drop s e),
  rest-IsSlice b n s e h (windows-IsSlice (b - 1) n (s + 15) e),
)

at_start : (s : ℕ) → s + 15 * 0 ≡ s
at_start s = omega arith

next_start : (s j : ℕ) → s + 15 * suc j ≡ s + 15 + 15 * j
next_start s j = omega arith

more : (b j : ℕ) → suc j < b → leb b 1 ≡ false
more b j h = ground (arith, h)

-- the window with number `j`
pub windows-mem :
    (b n s j : ℕ) (e : List ℕ)
    → j < b
    → j < n
    → Memᴰ (take 35 (drop (s + 15 * j) e)) (windows b n s e)
unfolding windows
windows-mem b zero s j e h k = absurd (omega (arith, k))
windows-mem b (suc n) s zero e h k = Memᴰ.head (rw (at_start s) refl)
windows-mem b (suc n) s (suc j) e h k = Memᴰ.tail (
    rw (more b j h, next_start s j)
      (windows-mem (b - 1) n (s + 15) j e (omega (arith, h)) (omega (arith, k))))
