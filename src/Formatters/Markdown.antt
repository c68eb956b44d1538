-- ===== src/Formatters/Markdown.antt =====
-- `escape_markdown` of shared/formatters.py, for the text that `str` makes of its value.
use Prim.Native.Char.{Char, code}
use Prim.Native.String.{String}
use ai_cyber_threat_detector.Common.{
  ℕ, ◌≡◌, refl, ap, Bool, true, false, not, ◌||◌, ◌&&◌, List, [], ◌∷◌, if◌then◌else◌, ◌==◌,
  Bool-cases, inl, inr,
}

abbrev pub member : ℕ → List ℕ → Bool
member n [] = false
member n (x ∷ xs) = (n == x) || member n xs

-- _MARKDOWN_SPECIAL_CHARS: \`*_{}[]()#+-.!|>~
unfoldable pub is_special : Char → Bool
is_special c = member (code c) (
    92 ∷ 96 ∷ 42 ∷ 95 ∷ 123 ∷ 125 ∷ 91 ∷ 93 ∷ 40 ∷ 41 ∷ 35 ∷ 43 ∷ 45 ∷ 46 ∷ 33 ∷ 124 ∷ 62 ∷ 126
    ∷ [])

-- the other ASCII punctuation, before which CommonMark takes a backslash away too: "$%&',/:;<=?@^
unfoldable pub is_other : Char → Bool
is_other c =
    member (code c) (34 ∷ 36 ∷ 37 ∷ 38 ∷ 39 ∷ 44 ∷ 47 ∷ 58 ∷ 59 ∷ 60 ∷ 61 ∷ 63 ∷ 64 ∷ 94 ∷ [])

unfoldable pub escape_markdown : String → String
escape_markdown String.[] = ""
escape_markdown (String.◌∷◌ c s) =
    let rest = escape_markdown s in
    if is_special c then String.◌∷◌ "\\" (String.◌∷◌ c rest) else String.◌∷◌ c rest

-- A text without its backslash escapes: by CommonMark's rule, a backslash before ASCII punctuation is taken away. Nothing else of
-- CommonMark is read, neither entities nor autolinks. `escaped` says that the character before was such a backslash.
unfoldable pub unescaped : (escaped : Bool) → String → String
unescaped false String.[] = ""
unescaped true String.[] = "\\"
unescaped false (String.◌∷◌ c s) =
    let rest = unescaped false s in
    let after = unescaped true s in if code c == 92 then after else String.◌∷◌ c rest
unescaped true (String.◌∷◌ c s) =
    let rest = unescaped false s in
    if is_special c || is_other c then String.◌∷◌ c rest else String.◌∷◌ "\\" (String.◌∷◌ c rest)

-- every special character that is no backslash of an escape stands behind one
unfoldable pub is_inert : (escaped : Bool) → String → Bool
is_inert escaped String.[] = not escaped
is_inert true (String.◌∷◌ c s) = is_inert false s
is_inert false (String.◌∷◌ c s) =
    let rest = is_inert false s in
    let after = is_inert true s in if code c == 92 then after else not (is_special c) && rest

plain : (c : Char) → is_special c ≡ false → (code c == 92) ≡ false
unfolding is_special
plain c h = elim (Bool-cases (code c == 92)) [ inl e ↦ absurd (cc (rw e at h)) | inr e ↦ e ]

unescaped-escape_markdown : (s : String) → unescaped false (escape_markdown s) ≡ s
unfolding unescaped escape_markdown
unescaped-escape_markdown String.[] = refl
unescaped-escape_markdown (String.◌∷◌ c s) = elim (Bool-cases (is_special c)) [
  | inl e ↦ rw (e, unescaped) (rw e (ap (String.◌∷◌ c) (unescaped-escape_markdown s)))
  | inr e ↦ rw (e, unescaped, plain c e) (ap (String.◌∷◌ c) (unescaped-escape_markdown s))
]

is_inert-escape_markdown : (s : String) → is_inert false (escape_markdown s) ≡ true
unfolding is_inert escape_markdown
is_inert-escape_markdown String.[] = refl
is_inert-escape_markdown (String.◌∷◌ c s) = elim (Bool-cases (is_special c)) [
  | inl e ↦ rw (e, is_inert) (is_inert-escape_markdown s)
  | inr e ↦ rw (e, is_inert, plain c e, e) (is_inert-escape_markdown s)
]

-- Taking the backslash escapes away gives back every text that was escaped, and in the escaped text each character that the pattern
-- names stands behind a backslash that escapes it.
pub escape_markdown-is_inert :
    (s : String)
    → (unescaped false (escape_markdown s) ≡ s) × (is_inert false (escape_markdown s) ≡ true)
escape_markdown-is_inert s = (unescaped-escape_markdown s, is_inert-escape_markdown s)
