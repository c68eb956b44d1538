-- ===== src/Playbooks/Quote.antt =====
-- The texts that inference/playbooks.py puts into a shell command: `sanitize_input`, `shlex.quote`, and the replacement of the
-- placeholders; and the POSIX shell's reading of one word, as far as quoting goes.
use Prim.Native.Char.{Char, code}
use Prim.Native.String.{◌++◌, count}
use ai_cyber_threat_detector.Common.{
  ℕ, zero, suc, ◌-◌, Bool, true, ◌&&◌, ◌||◌, [], ◌∷◌, String, str_eq, if◌then◌else◌, leb, ◌==◌,
}
use ai_cyber_threat_detector.Common.Dict.{Dict}
use ai_cyber_threat_detector.Common.Text.{starts_with}

-- [\r\n\x00]
unfoldable pub is_control : Char → Bool
is_control c = code c == 13 || (code c == 10 || code c == 0)

unfoldable pub clean : String → String
unfolding is_control
clean String.[] = ""
clean (String.◌∷◌ c s) = let rest = clean s in if is_control c then rest else String.◌∷◌ c rest

-- what `shlex.quote` leaves bare: letters, digits, and _@%+=:,./-
unfoldable pub is_bare : Char → Bool
is_bare c =
    (leb 97 (code c) && leb (code c) 122)
    || ((leb 64 (code c) && leb (code c) 90)
        || ((leb 43 (code c) && leb (code c) 58)
            || (code c == 95 || (code c == 37 || code c == 61))))

unfoldable pub all_bare : String → Bool
unfolding is_bare
all_bare String.[] = true
all_bare (String.◌∷◌ c s) = is_bare c && all_bare s

-- within single quotes, where a single quote leaves them and stands in double quotes
unfoldable pub escape : String → String
escape String.[] = ""
escape (String.◌∷◌ c s) =
    let rest = escape s in
    if code c == 39
    then String.◌∷◌ c (String.◌∷◌ "\"" (String.◌∷◌ c (String.◌∷◌ "\"" (String.◌∷◌ c rest))))
    else String.◌∷◌ c rest

-- shlex.quote
unfoldable pub quote : String → String
unfolding all_bare escape
quote s = if str_eq s "" then "''" else if all_bare s then s else String.◌∷◌ "'" (escape s ++ "'")

-- s.replace(old, new): `passed` characters of an occurrence are still to be passed over
unfoldable pub replace_from : (passed : ℕ) (old new : String) → String → String
replace_from passed old new String.[] = ""
replace_from (suc passed) old new (String.◌∷◌ c s) = replace_from passed old new s
replace_from zero old new (String.◌∷◌ c s) =
    let after = replace_from (count old - 1) old new s in
    let next = replace_from zero old new s in
    if starts_with old (String.◌∷◌ c s) then new ++ after else String.◌∷◌ c next

-- one placeholder after the other
unfoldable pub safe_format_string : String → Dict String → String
unfolding replace_from
safe_format_string template_str [] = template_str
safe_format_string template_str ((k, v) ∷ kwargs) =
    safe_format_string (replace_from 0 ("{" ++ (k ++ "}")) v template_str) kwargs
