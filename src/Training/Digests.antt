-- ===== src/Training/Digests.antt =====
-- Texts without a space, as hex digests are: what reading and stripping them gives.
use Prim.Native.Char.{Char}
use Prim.Native.String.{◌++◌, count}
use text.Mathlib.TextLemmas.{cons-append, length-cons}
use ai_cyber_threat_detector.Common.{
  ℕ, zero, suc, ◌≤◌, ◌≡◌, refl, ap, ◌∙◌, Bool, true, false, not, ◌&&◌, String, str_eq,
  if◌then◌else◌, both, arith, Bool-cases, inl, inr, eq_iff,
}
use ai_cyber_threat_detector.Common.Text.{strip, lstrip, rstrip_by, is_space}
use ai_cyber_threat_detector.Training.Sidecar.{read, until_space}

-- no character is a space
unfoldable pub is_word : String → Bool
is_word String.[] = true
is_word (String.◌∷◌ c s) = not (is_space c) && is_word s

not_space : (b : Bool) → not b ≡ true → b ≡ false
not_space true h = absurd (cc h)
not_space false h = refl

kept : (b c : Bool) (s t : String) → c ≡ false → (if b && c then s else t) ≡ t
kept true c s t h = rw h refl
kept false c s t h = refl

module _ (c : Char) (s : String) (h : is_word (String.◌∷◌ c s) ≡ true) where
  first_letter : is_space c ≡ false
  unfolding is_word
  first_letter = not_space (is_space c) (both (not (is_space c)) (is_word s) h).0

  rest-is_word : is_word s ≡ true
  unfolding is_word
  rest-is_word = (both (not (is_space c)) (is_word s) h).1

rstrip_by_word : (s : String) → is_word s ≡ true → rstrip_by is_space s ≡ s
unfolding rstrip_by
rstrip_by_word String.[] h = refl
rstrip_by_word (String.◌∷◌ c s) h =
    kept (str_eq (rstrip_by is_space s) "") (is_space c) "" (String.◌∷◌ c (rstrip_by is_space s))
      (first_letter c s h)
    ∙ ap (String.◌∷◌ c) (rstrip_by_word s (rest-is_word c s h))

rstrip_by_newline : (s : String) → is_word s ≡ true → rstrip_by is_space (s ++ "\n") ≡ s
unfolding rstrip_by is_space
rstrip_by_newline String.[] h = refl
rstrip_by_newline (String.◌∷◌ c s) h = rw (cons-append c s "\n") (
    kept (str_eq (rstrip_by is_space (s ++ "\n")) "") (is_space c) ""
      (String.◌∷◌ c (rstrip_by is_space (s ++ "\n"))) (first_letter c s h)
    ∙ ap (String.◌∷◌ c) (rstrip_by_newline s (rest-is_word c s h)))

pub lstrip_word : (s t : String) → is_word s ≡ true → str_eq s "" ≡ false → lstrip (s ++ t) ≡ s ++ t
unfolding lstrip
lstrip_word String.[] t h full = absurd (cc full)
lstrip_word (String.◌∷◌ c s) t h full = rw (cons-append c s t) (rw (first_letter c s h) refl)

-- a digest is what `strip` leaves of it, and of a line of it
pub strip_word : (s : String) → is_word s ≡ true → strip s ≡ s
unfolding strip lstrip
strip_word String.[] h = refl
strip_word (String.◌∷◌ c s) h = rw (first_letter c s h) (rstrip_by_word (String.◌∷◌ c s) h)

pub strip_line : (s : String) → is_word s ≡ true → str_eq s "" ≡ false → strip (s ++ "\n") ≡ s
unfolding strip
strip_line s h full = rw (lstrip_word s "\n" h full) (rstrip_by_newline s h)

pub until_space_line : (s : String) → is_word s ≡ true → until_space (s ++ "\n") ≡ s
unfolding until_space is_space
until_space_line String.[] h = refl
until_space_line (String.◌∷◌ c s) h =
    rw (cons-append c s "\n")
      (rw (first_letter c s h) (ap (String.◌∷◌ c) (until_space_line s (rest-is_word c s h))))

pub cons_full : (c : Char) (s : String) → str_eq (String.◌∷◌ c s) "" ≡ false
cons_full c s = elim (Bool-cases (str_eq (String.◌∷◌ c s) "")) [
  | inl e ↦ absurd (omega (arith, ap count ((eq_iff (String.◌∷◌ c s) "").0 e), length-cons c s))
  | inr e ↦ e
]

pub line_full : (s t : String) → str_eq s "" ≡ false → str_eq (s ++ t) "" ≡ false
line_full String.[] t full = absurd (cc full)
line_full (String.◌∷◌ c s) t full = rw (cons-append c s t) (cons_full c (s ++ t))

pub read_whole : (n : ℕ) (s : String) → count s ≤ n → read n s ≡ s
unfolding read
read_whole zero String.[] h = refl
read_whole zero (String.◌∷◌ c s) h = absurd (omega (arith, length-cons c s, h))
read_whole (suc n) String.[] h = refl
read_whole (suc n) (String.◌∷◌ c s) h =
    ap (String.◌∷◌ c) (read_whole n s (omega (arith, length-cons c s, h)))
