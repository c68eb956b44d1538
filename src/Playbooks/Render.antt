-- ===== src/Playbooks/Render.antt =====
-- The replacement of placeholders one after the other, as in inference/playbooks.py, against a template that is given in parts.
use Prim.Native.Char.{Char, code}
use Prim.Native.String.{◌++◌, count}
use text.Mathlib.TextLemmas.{cons-append, nil-append, length-cons}
use ai_cyber_threat_detector.Common.{
  ◌-◌, ◌≡◌, refl, ap, ◌∙◌, true, false, not, List, [], ◌∷◌, String, ◌==◌, Bool-cases, both, inl,
  inr, arith, All, map,
}
use ai_cyber_threat_detector.Common.Text.{starts_with}
use ai_cyber_threat_detector.Playbooks.Quote.{replace_from}
use ai_cyber_threat_detector.Playbooks.Marks.{
  Key, src_ip, dst_ip, dst_port, domain, ja3_hash, Part, literal, hole, name, mark, is_plain,
  IsPlain, render, same, fill, marks_clash, starts_with-clash,
}

-- the placeholders of a command
starts_with-append : (p s : String) → starts_with p (p ++ s) ≡ true
unfolding starts_with
starts_with-append String.[] s = refl
starts_with-append (String.◌∷◌ c p) s =
    let itself : (code c == code c) ≡ true = ground arith in
    rw (cons-append c p s) (rw itself (starts_with-append p s))

other_start :
    (rest : String) (c : Char) (s : String)
    → (123 == code c) ≡ false
    → starts_with (String.◌∷◌ "{" rest) (String.◌∷◌ c s) ≡ false
unfolding starts_with
other_start rest c s other = rw other refl

module _ (old v : String) where
  replace_from-passed :
      (t s : String) → replace_from (count t) old v (t ++ s) ≡ replace_from 0 old v s
  unfolding replace_from
  replace_from-passed String.[] s = rw (nil-append s) refl
  replace_from-passed (String.◌∷◌ c t) s =
      rw (cons-append c t s, length-cons c t) (replace_from-passed t s)

  -- text without a brace is passed over
  replace_from-plain :
      (rest a s : String)
      → old ≡ String.◌∷◌ "{" rest
      → is_plain a ≡ true
      → replace_from 0 old v (a ++ s) ≡ a ++ replace_from 0 old v s
  unfolding replace_from is_plain starts_with
  replace_from-plain rest String.[] s h plain =
      rw (nil-append s, nil-append (replace_from 0 old v s)) refl
  replace_from-plain rest (String.◌∷◌ c a) s h plain =
      let (first, others) = both (not (code c == 123)) (is_plain a) plain in
      let other : (123 == code c) ≡ false = ground (arith, first) in
      rw (cons-append c a s, cons-append c a (replace_from 0 old v s))
        (let missing : starts_with old (String.◌∷◌ c (a ++ s)) ≡ false =
            rw h (other_start rest c (a ++ s) other) in
          rw missing (ap (String.◌∷◌ c) (replace_from-plain rest a s h others)))

  -- an occurrence at the front is replaced
  replace_from-front :
      (c : Char) (t s : String)
      → old ≡ String.◌∷◌ c t
      → replace_from 0 old v (old ++ s) ≡ v ++ replace_from 0 old v s
  unfolding replace_from
  replace_from-front c t s h =
      let shape : old ++ s ≡ String.◌∷◌ c (t ++ s) = ap (λ x. x ++ s) h ∙ cons-append c t s in
      let size : count old - 1 ≡ count t = omega (arith, ap count h, length-cons c t) in
      let begins = rw shape at (starts_with-append old s) in
      rw shape (rw (begins, size) (rw (replace_from-passed t s) refl))

-- what follows the opening brace of a placeholder
abbrev inside : Key → String
inside k = name k ++ "}"

mark-inside : (k : Key) → (mark k ≡ String.◌∷◌ "{" (inside k)) × (is_plain (inside k) ≡ true)
unfolding is_plain
mark-inside src_ip = (refl, refl)
mark-inside dst_ip = (refl, refl)
mark-inside dst_port = (refl, refl)
mark-inside domain = (refl, refl)
mark-inside ja3_hash = (refl, refl)

same-mark : (k j : Key) → same k j ≡ true → mark j ≡ mark k
same-mark src_ip src_ip h = refl
same-mark src_ip dst_ip h = absurd (cc h)
same-mark src_ip dst_port h = absurd (cc h)
same-mark src_ip domain h = absurd (cc h)
same-mark src_ip ja3_hash h = absurd (cc h)
same-mark dst_ip src_ip h = absurd (cc h)
same-mark dst_ip dst_ip h = refl
same-mark dst_ip dst_port h = absurd (cc h)
same-mark dst_ip domain h = absurd (cc h)
same-mark dst_ip ja3_hash h = absurd (cc h)
same-mark dst_port src_ip h = absurd (cc h)
same-mark dst_port dst_ip h = absurd (cc h)
same-mark dst_port dst_port h = refl
same-mark dst_port domain h = absurd (cc h)
same-mark dst_port ja3_hash h = absurd (cc h)
same-mark domain src_ip h = absurd (cc h)
same-mark domain dst_ip h = absurd (cc h)
same-mark domain dst_port h = absurd (cc h)
same-mark domain domain h = refl
same-mark domain ja3_hash h = absurd (cc h)
same-mark ja3_hash src_ip h = absurd (cc h)
same-mark ja3_hash dst_ip h = absurd (cc h)
same-mark ja3_hash dst_port h = absurd (cc h)
same-mark ja3_hash domain h = absurd (cc h)
same-mark ja3_hash ja3_hash h = refl

mark-append : (j : Key) (s : String) → mark j ++ s ≡ String.◌∷◌ "{" (inside j ++ s)
mark-append j s = ap (λ x. x ++ s) (mark-inside j).0 ∙ cons-append "{" (inside j) s

module _ (k : Key) (v : String) where
  -- another placeholder is left alone
  replace_from-other :
      (j : Key) (s : String)
      → same k j ≡ false
      → replace_from 0 (mark k) v (mark j ++ s) ≡ mark j ++ replace_from 0 (mark k) v s
  unfolding replace_from
  replace_from-other j s h =
      let (e, plain) = mark-inside j in
      let missing = starts_with-clash (mark k) (mark j) s (marks_clash k j h) in
      let (own, own_plain) = mark-inside k in
      let absent = rw (mark-append j s) at missing in
      rw (mark-append j s, mark-append j (replace_from 0 (mark k) v s))
        (rw absent
          (ap (String.◌∷◌ "{") (replace_from-plain (mark k) v (inside k) (inside j) s own plain)))

  -- One replacement fills the holes of its key.
  pub replace_from-render :
      (parts : List Part)
      → All IsPlain parts
      → replace_from 0 (mark k) v (render parts) ≡ render (map (fill k v) parts)
  unfolding replace_from
  replace_from-render [] h = refl
  replace_from-render (literal a ∷ parts) h =
      let (e, plain) = mark-inside k in
      replace_from-plain (mark k) v (inside k) a (render parts) e h.0
      ∙ ap (λ x. a ++ x) (replace_from-render parts h.1)
  replace_from-render (hole j ∷ parts) h = elim (Bool-cases (same k j)) [
    | inr f ↦ rw f (
        replace_from-other j (render parts) f
        ∙ ap (λ x. mark j ++ x) (replace_from-render parts h.1))
    | inl f ↦ rw f (
        ap (λ x. replace_from 0 (mark k) v (x ++ render parts)) (same-mark k j f)
        ∙ replace_from-front (mark k) v "{" (inside k) (render parts) (mark-inside k).0
        ∙ ap (λ x. v ++ x) (replace_from-render parts h.1))
  ]
