-- ===== src/Access/Entitled.antt =====
-- What a principal's scopes name, for `require_scope` of api/deps.py.
use mathlib.Core.List.{Memᴰ}
use Prim.Native.Char.{code}
use Prim.Native.String.{◌++◌}
use package.text.Mathlib.TextLemmas.{nil-append, cons-append}
use package.text.Mathlib.TextEquality.{Char-path}
use ai_cyber_threat_detector.Common.{
  ◌≡◌, inl, inr, sym, ◌∙◌, ap, true, false, not, Option, none, some, String, str_eq, Bool-cases,
  both, ==_iff, ◌==◌, contains-mem,
}
use ai_cyber_threat_detector.Common.Text.{starts_with, has_part}
use ai_cyber_threat_detector.Access.Auth.{Claim, texts, text, other, holds_scope}

-- a text with another one in it
abbrev pub IsPart : String → String → Type 0
IsPart s t = (before : String) × (after : String) × (t ≡ before ++ (s ++ after))

starts_with-rest : (p s : String) → starts_with p s ≡ true → (rest : String) × (s ≡ p ++ rest)
unfolding starts_with
starts_with-rest String.[] s h = (s, sym (nil-append s))
starts_with-rest (String.◌∷◌ c p) String.[] h = absurd (cc h)
starts_with-rest (String.◌∷◌ c p) (String.◌∷◌ d s) h =
    let (first, later) = both (code c == code d) (starts_with p s) h in
    let (rest, e) = starts_with-rest p s later in
    let same : c ≡ d = Char-path c d ((==_iff (code c) (code d)).0 first) in
    (
      rest,
      ap (String.◌∷◌ d) e
          ∙ ap (λ x. String.◌∷◌ x (p ++ rest)) (sym same)
          ∙ sym (cons-append c p rest),
    )

has_part-IsPart : (p s : String) → has_part p s ≡ true → IsPart p s
unfolding has_part
has_part-IsPart p String.[] h =
    let (rest, e) = starts_with-rest p "" h in ("", rest, e ∙ sym (nil-append (p ++ rest)))
has_part-IsPart p (String.◌∷◌ c s) h = elim (Bool-cases (starts_with p (String.◌∷◌ c s))) [
  | inl f ↦
      let (rest, e) = starts_with-rest p (String.◌∷◌ c s) f in
      ("", rest, e ∙ sym (nil-append (p ++ rest)))
  | inr f ↦
      let (before, after, e) = has_part-IsPart p s (rw f at h) in
      (String.◌∷◌ c before, after, ap (String.◌∷◌ c) e ∙ sym (cons-append c before (p ++ after)))
]

-- a list of scopes has the scope, or a text has it as a part; a missing claim, or another value, names none
abbrev pub IsNamed : Option Claim → String → Type 0
IsNamed none scope = ⊥
IsNamed (some (texts l)) scope = Memᴰ scope l
IsNamed (some (text t)) scope = IsPart scope t
IsNamed (some (other b)) scope = ⊥

pub holds_scope-IsNamed :
    (claim : Option Claim) (scope : String)
    → holds_scope claim scope ≡ some true
    → IsNamed claim scope
unfolding holds_scope
holds_scope-IsNamed none scope h = absurd (cc h)
holds_scope-IsNamed (some (texts l)) scope h = contains-mem scope l (cc h)
holds_scope-IsNamed (some (text t)) scope h =
    has_part-IsPart scope t (both (not (str_eq t "")) (has_part scope t) (cc h)).1
holds_scope-IsNamed (some (other true)) scope h = absurd (cc h)
holds_scope-IsNamed (some (other false)) scope h = absurd (cc h)
