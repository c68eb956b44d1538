-- ===== src/Common/Dict.antt =====
-- Python's `dict`: an association list in insertion order. An update keeps the place of its key.
use Prim.Native.String.{String}
use mathlib.Core.Path.{◌≡◌, refl}
use mathlib.Core.Option.{Option, none, some}
use mathlib.Core.List.{List, [], ◌∷◌}
use native.Mathlib.Omega.{arith}
use text.Mathlib.Text.{◌==◌}
use text.Mathlib.TextEquality.{eq_iff}
use Prim.Native.Nat.{ℕ, ◌+◌}
use mathlib.Core.Logic.{inl, inr}
use ai_cyber_threat_detector.Common.Tests.{if◌then◌else◌, Bool-cases}

abbrev pub Dict {ℓ} : Type ℓ → Type ℓ
Dict V = List (String × V)

module _ {ℓ} {V : Type ℓ} where
  -- d.get(k)
  unfoldable pub get : Dict V → String → Option V
  get [] k = none
  get ((j, v) ∷ d) k = if j == k then some v else get d k

  -- d[k] = v
  unfoldable pub put : Dict V → String → V → Dict V
  put [] k v = (k, v) ∷ []
  put ((j, w) ∷ d) k v = let rest = put d k v in if j == k then (j, v) ∷ d else (j, w) ∷ rest

  -- d.pop(k, None)
  unfoldable pub remove : Dict V → String → Dict V
  remove [] k = []
  remove ((j, w) ∷ d) k = let rest = remove d k in if j == k then rest else (j, w) ∷ rest

  pub get-put :
      (d : Dict V) (k j : String) (v : V) → get (put d k v) j ≡ (if k == j then some v else get d j)
  unfolding get put
  get-put [] k j v = refl
  get-put ((i, w) ∷ d) k j v = ground (arith, eq_iff k j, eq_iff i k, eq_iff i j, get-put d k j v)

  pub get-remove :
      (d : Dict V) (k j : String) → get (remove d k) j ≡ (if k == j then none else get d j)
  unfolding get remove
  get-remove ((i, old) ∷ rest) k j =
      ground (arith, get-remove rest k j, eq_iff i j, eq_iff i k, eq_iff k j)
  get-remove [] k j = ground arith

  -- the sum over all entries, and what is counted at a key
  abbrev pub tally : (V → ℕ) → Dict V → ℕ
  tally m [] = 0
  tally m ((k, v) ∷ d) = m v + tally m d

  abbrev pub at_key : (V → ℕ) → Option V → ℕ
  at_key m none = 0
  at_key m (some v) = m v

  pub tally-put :
      (m : V → ℕ) (d : Dict V) (k : String) (v : V)
      → tally m (put d k v) + at_key m (get d k) ≡ tally m d + m v
  unfolding put get
  tally-put m [] k v = omega arith
  tally-put m ((j, w) ∷ d) k v = elim (Bool-cases (j == k)) [
    | inl e ↦ rw e (omega arith)
    | inr e ↦ rw e (omega (arith, tally-put m d k v))
  ]
