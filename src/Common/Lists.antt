-- ===== src/Common/Lists.antt =====
-- Lists measured by native numbers, under the library's names, and predicates on them.
use Prim.Native.Nat.{ℕ, zero, suc, ◌+◌, ◌-◌, ◌≤◌, min}
use mathlib.Core.Path.{◌≡◌, refl, ap}
use mathlib.Core.Bool.{Bool, true, false, ◌||◌}
use mathlib.Core.List.{Memᴰ, List, [], ◌∷◌, ◌++◌}
use native.Mathlib.Omega.{arith}
use Prim.Native.String.{String}
use text.Mathlib.Text.{◌==◌}
use text.Mathlib.TextEquality.{eq_iff}
use mathlib.Core.Logic.{inl, inr}
use ai_cyber_threat_detector.Common.Tests.{Bool-cases}

module _ {ℓ} {A : Type ℓ} where
  abbrev pub length : List A → ℕ
  length [] = 0
  length (x ∷ xs) = suc (length xs)

  abbrev pub take : ℕ → List A → List A
  take zero xs = []
  take (suc n) [] = []
  take (suc n) (x ∷ xs) = x ∷ take n xs

  abbrev pub drop : ℕ → List A → List A
  drop zero xs = xs
  drop (suc n) [] = []
  drop (suc n) (x ∷ xs) = drop n xs

  abbrev pub replicate : ℕ → A → List A
  replicate zero a = []
  replicate (suc n) a = a ∷ replicate n a

  abbrev pub is_empty : List A → Bool
  is_empty [] = true
  is_empty (x ∷ xs) = false

  abbrev pub All {κ} : (A → Type κ) → List A → Type κ
  All P [] = Unit
  All P (x ∷ xs) = P x × All P xs

  pub length-append : (xs ys : List A) → length (xs ++ ys) ≡ length xs + length ys
  length-append [] ys = omega arith
  length-append (x ∷ xs) ys = omega (arith, length-append xs ys)

  pub length-take : (n : ℕ) (xs : List A) → length (take n xs) ≡ min n (length xs)
  length-take zero xs = omega arith
  length-take (suc n) [] = omega arith
  length-take (suc n) (x ∷ xs) = omega (arith, length-take n xs)

  pub length-drop : (n : ℕ) (xs : List A) → length (drop n xs) ≡ length xs - n
  length-drop zero xs = omega arith
  length-drop (suc n) [] = omega arith
  length-drop (suc n) (x ∷ xs) = omega (arith, length-drop n xs)

  pub length-replicate : (n : ℕ) (a : A) → length (replicate n a) ≡ n
  length-replicate zero a = refl
  length-replicate (suc n) a = ap suc (length-replicate n a)

  -- a list that is short enough stays whole
  pub take_of_length-le : (n : ℕ) (l : List A) → length l ≤ n → take n l ≡ l
  take_of_length-le (suc m) (a ∷ l) short = ap (◌∷◌ a) (take_of_length-le m l (omega arith))
  take_of_length-le zero (a ∷ l) short = absurd (omega arith)
  take_of_length-le zero [] _ = refl
  take_of_length-le (suc m) [] _ = refl

module _ {ℓ κ} {A : Type ℓ} (P : A → Type κ) where
  pub All-append : (xs ys : List A) → All P xs → All P ys → All P (xs ++ ys)
  All-append [] ys _ h = h
  All-append (x ∷ xs) ys g h = (g.0, All-append xs ys g.1 h)

module _ {ℓ} {A : Type ℓ} where
  pub Mem-left : (a : A) (xs ys : List A) → Memᴰ a xs → Memᴰ a (xs ++ ys)
  Mem-left a [] ys m = elim m [ ]
  Mem-left a (x ∷ xs) ys (Memᴰ.head e) = Memᴰ.head e
  Mem-left a (x ∷ xs) ys (Memᴰ.tail m) = Memᴰ.tail (Mem-left a xs ys m)

  pub Mem-right : (a : A) (xs ys : List A) → Memᴰ a ys → Memᴰ a (xs ++ ys)
  Mem-right a [] ys m = m
  Mem-right a (x ∷ xs) ys m = Memᴰ.tail (Mem-right a xs ys m)

module _ {ℓ κ} {A : Type ℓ} (P : A → Type κ) where
  pub All-Mem : (xs : List A) (x : A) → All P xs → Memᴰ x xs → P x
  All-Mem [] x h m = elim m [ ]
  All-Mem (y ∷ ys) x h (Memᴰ.head e) = rw e h.0
  All-Mem (y ∷ ys) x h (Memᴰ.tail m) = All-Mem ys x h.1 m

  pub Mem-All : (xs : List A) → ((x : A) → Memᴰ x xs → P x) → All P xs
  Mem-All [] f = tt
  Mem-All (x ∷ xs) f = (f x (Memᴰ.head refl), Mem-All xs λ y m. f y (Memᴰ.tail m))

-- `s in l`, for texts
abbrev pub contains : String → List String → Bool
contains s [] = false
contains s (x ∷ xs) = (s == x) || contains s xs

pub contains-mem : (d : String) (xs : List String) → contains d xs ≡ true → Memᴰ d xs
contains-mem d [] h = absurd (cc h)
contains-mem d (x ∷ xs) h = elim (Bool-cases (d == x)) [
  | inl e ↦ Memᴰ.head ((eq_iff d x).0 e)
  | inr e ↦ Memᴰ.tail (contains-mem d xs (rw e at h))
]
