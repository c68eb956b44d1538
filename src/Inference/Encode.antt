-- ===== src/Inference/Encode.antt =====
-- The characters that `predict` of inference/models.py keeps, their numbers, and the variants of a domain that it checks.
use Prim.Native.Char.{Char, code}
use Prim.Native.String.{◌++◌, count}
use ai_cyber_threat_detector.Common.{
  ℕ, ◌-◌, Bool, not, ◌&&◌, ◌||◌, List, [], ◌∷◌, String, str_eq, if◌then◌else◌, leb, ◌==◌, contains,
  length,
}
use ai_cyber_threat_detector.Common.{◌++◌ as ◌⧺◌}
use ai_cyber_threat_detector.Common.Text.{split}

-- self.char_map.get(c, 0): the letters, the digits, the hyphen and the dot are numbered from 1
unfoldable pub char_number : Char → ℕ
char_number c =
    if leb 97 (code c) && leb (code c) 122
    then code c - 96
    else if leb 48 (code c) && leb (code c) 57
    then code c - 21
    else if code c == 45
    then 37
    else if code c == 46
    then 38
    else 0

-- `c in self.char_map`
abbrev pub is_valid : Char → Bool
is_valid c = not (char_number c == 0)

-- a character that is not in the map becomes a hyphen
unfoldable pub sanitize : String → String
sanitize String.[] = ""
sanitize (String.◌∷◌ c s) = String.◌∷◌ (if is_valid c then c else "-") (sanitize s)

unfoldable pub encode : String → List ℕ
encode String.[] = []
encode (String.◌∷◌ c s) = char_number c ∷ encode s

unfoldable pub is_dot : Char → Bool
is_dot c = code c == 46

unfoldable pub nonempty_parts : List String → List String
nonempty_parts [] = []
nonempty_parts (p ∷ ps) = let rest = nonempty_parts ps in if str_eq p "" then rest else p ∷ rest

-- '.'.join(parts[-2:])
unfoldable pub last_two : List String → String
last_two [] = ""
last_two (a ∷ []) = a
last_two (a ∷ b ∷ []) = a ++ ("." ++ b)
last_two (a ∷ b ∷ c ∷ ps) = last_two (b ∷ c ∷ ps)

unfoldable pub add_new : String → List String → List String
add_new d domains = if contains d domains then domains else domains ⧺ d ∷ []

unfoldable pub add_parts : List String → List String → List String
unfolding add_new
add_parts [] domains = domains
add_parts (p ∷ ps) domains = add_parts ps (if leb 4 (count p) then add_new p domains else domains)

unfoldable pub with_clean : (ascii_domain clean_domain : String) → List String → List String
unfolding add_new
with_clean ascii_domain clean_domain domains =
    if str_eq ascii_domain clean_domain || str_eq (sanitize clean_domain) ""
    then domains
    else add_new (sanitize clean_domain) domains

-- the domain, its other spelling, the last two labels, and every label of four characters or more
unfoldable pub domains_to_check : (ascii_domain clean_domain : String) → List String
unfolding with_clean last_two nonempty_parts add_new add_parts
domains_to_check ascii_domain clean_domain =
    let sanitized_ascii = sanitize ascii_domain in
    let domains = with_clean ascii_domain clean_domain (sanitized_ascii ∷ []) in
    let parts = nonempty_parts (split is_dot sanitized_ascii) in
    if leb 2 (length parts) then add_parts parts (add_new (last_two parts) domains) else domains
