-- ===== src/Playbooks/Shell.antt =====
-- The quoting of inference/playbooks.py against a POSIX shell's reading of a word, as the shell's manual describes it.
use Prim.Native.Char.{Char, code}
use Prim.Native.String.{◌++◌}
use text.Mathlib.TextEquality.{Char-path}
use text.Mathlib.TextLemmas.{cons-append}
use ai_cyber_threat_detector.Common.{
  ◌≡◌, refl, Bool, true, ◌||◌, Option, none, some, String, str_eq, eq_iff, if◌then◌else◌, ◌==◌,
  Bool-cases, both, ==_iff, inl, inr,
}
use ai_cyber_threat_detector.Playbooks.Quote.{is_bare, all_bare, escape, quote}

-- within which quotes the shell is
pub data Mode : Type 0 where
  plain single double : Mode

-- the characters that keep a meaning within double quotes: " $ ` \
abbrev is_active : Char → Bool
is_active c = code c == 34 || (code c == 36 || (code c == 96 || code c == 92))

-- a character of the word, and the rest
abbrev then_read : Char → Option String → Option String
then_read c none = none
then_read c (some s) = some (String.◌∷◌ c s)

-- The one word that the shell reads. `none`: a quote is left open, or a character outside quotes could end the word or
-- mean something to the shell.
unfoldable pub read_word : Mode → String → Option String
read_word plain String.[] = some ""
read_word plain (String.◌∷◌ c s) =
    let bare = then_read c (read_word plain s) in
    let in_single = read_word single s in
    let in_double = read_word double s in
    if is_bare c
    then bare
    else if code c == 39
    then in_single
    else if code c == 34
    then in_double
    else none
read_word single String.[] = none
read_word single (String.◌∷◌ c s) =
    let out = read_word plain s in
    let on = then_read c (read_word single s) in if code c == 39 then out else on
read_word double String.[] = none
read_word double (String.◌∷◌ c s) =
    let out = read_word plain s in
    let on = then_read c (read_word double s) in
    if code c == 34 then out else if is_active c then none else on

all_bare-read : (s : String) → all_bare s ≡ true → read_word plain s ≡ some s
unfolding read_word all_bare
all_bare-read String.[] h = refl
all_bare-read (String.◌∷◌ c s) h =
    let (first, rest) = both (is_bare c) (all_bare s) h in rw first (rw (all_bare-read s rest) refl)

-- an escaped single quote: out of the quotes, the quote in double quotes, and in again
escaped-read :
    (t s : String)
    → read_word single t ≡ some s
    → read_word single
        (String.◌∷◌ "'" (String.◌∷◌ "\"" (String.◌∷◌ "'" (String.◌∷◌ "\"" (String.◌∷◌ "'" t)))))
      ≡ some (String.◌∷◌ "'" s)
unfolding read_word is_bare
escaped-read t s h = rw h refl

five-append :
    (a b c d e : Char) (s t : String)
    → (String.◌∷◌ a (String.◌∷◌ b (String.◌∷◌ c (String.◌∷◌ d (String.◌∷◌ e s))))) ++ t
      ≡ String.◌∷◌ a (String.◌∷◌ b (String.◌∷◌ c (String.◌∷◌ d (String.◌∷◌ e (s ++ t)))))
five-append a b c d e s t =
    rw
      (
        cons-append a (String.◌∷◌ b (String.◌∷◌ c (String.◌∷◌ d (String.◌∷◌ e s)))) t,
        cons-append b (String.◌∷◌ c (String.◌∷◌ d (String.◌∷◌ e s))) t,
        cons-append c (String.◌∷◌ d (String.◌∷◌ e s)) t,
        cons-append d (String.◌∷◌ e s) t,
        cons-append e s t,
      )
      refl

-- the escaped text, read within single quotes up to the closing one
escape-read : (s : String) → read_word single (escape s ++ "'") ≡ some s
unfolding read_word escape
escape-read String.[] = refl
escape-read (String.◌∷◌ c s) = elim (Bool-cases (code c == 39)) [
  | inl f ↦
      let quoted : c ≡ "'" = Char-path c "'" ((==_iff (code c) 39).0 f) in
      rw f (
        rw (five-append c "\"" c "\"" c (escape s) "'", quoted)
          (escaped-read (escape s ++ "'") s (escape-read s)))
  | inr f ↦ rw f (rw (cons-append c (escape s) "'") (rw (f, escape-read s) refl))
]

-- What is quoted reaches the command as one word: a shell that reads a quoted text gets back exactly that text, and
-- nothing in it ends the word or is run.
pub read_word-quote : (s : String) → read_word plain (quote s) ≡ some s
unfolding quote read_word is_bare
read_word-quote s = elim (Bool-cases (str_eq s "")) [
  | inl e ↦ rw ((eq_iff s "").0 e) refl
  | inr e ↦ elim (Bool-cases (all_bare s)) [
    | inl f ↦ rw (e, f) (all_bare-read s f)
    | inr f ↦ rw (e, f) (escape-read s)
  ]
]
