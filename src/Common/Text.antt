-- ===== src/Common/Text.antt =====
-- Python's methods on texts, as far as the source uses them.
use Prim.Native.Char.{Char, code}
use Prim.Native.String.{String}
use Prim.Native.Nat.{ℕ, suc, zero, ◌+◌, ◌-◌, ◌*◌}
use mathlib.Core.Bool.{true, Bool, false, not, ◌&&◌, ◌||◌}
use mathlib.Core.List.{List, [], ◌∷◌}
use mathlib.Core.Option.{Option, none, some}
use text.Mathlib.Text.{◌==◌ as str_eq}
use ai_cyber_threat_detector.Common.Tests.{◌==◌, leb, if◌then◌else◌}
use ai_cyber_threat_detector.Common.Int.{ℤ, pos, negsuc}

unfoldable pub is_space : Char → Bool
is_space c =
    code c == 32 || ((leb 9 (code c) && leb (code c) 13) || (leb 28 (code c) && leb (code c) 31))

-- s.lstrip()
unfoldable pub lstrip : String → String
unfolding is_space
lstrip String.[] = String.[]
lstrip (String.◌∷◌ c s) = let rest = lstrip s in if is_space c then rest else String.◌∷◌ c s

-- s.rstrip() of the characters that a test picks
unfoldable pub rstrip_by : (Char → Bool) → String → String
rstrip_by p String.[] = String.[]
rstrip_by p (String.◌∷◌ c s) =
    let rest = rstrip_by p s in if str_eq rest "" && p c then String.[] else String.◌∷◌ c rest

-- s.strip()
unfoldable pub strip : String → String
unfolding lstrip rstrip_by is_space
strip s = rstrip_by is_space (lstrip s)

-- s.endswith(suffix)
unfoldable pub ends_with : String → String → Bool
ends_with suffix String.[] = str_eq suffix ""
ends_with suffix (String.◌∷◌ c s) = str_eq suffix (String.◌∷◌ c s) || ends_with suffix s

unfoldable pub ends_with_any : List String → String → Bool
unfolding ends_with
ends_with_any [] s = false
ends_with_any (suffix ∷ suffixes) s = ends_with suffix s || ends_with_any suffixes s

-- s.split(".")[0]
unfoldable pub first_label : String → String
first_label String.[] = String.[]
first_label (String.◌∷◌ c s) =
    let rest = first_label s in if code c == b'.' then String.[] else String.◌∷◌ c rest

unfoldable pub is_digit : Char → Bool
is_digit c = leb b'0' (code c) && leb (code c) b'9'

unfoldable pub digits : ℕ → String → Option ℕ
unfolding is_digit
digits n String.[] = some n
digits n (String.◌∷◌ c s) =
    let rest = digits (n * 10 + (code c - 48)) s in if is_digit c then rest else none

unfoldable pub minus : Option ℕ → Option ℤ
minus none = none
minus (some zero) = some (pos 0)
minus (some (suc n)) = some (negsuc n)

unfoldable pub plus : Option ℕ → Option ℤ
plus none = none
plus (some n) = some (pos n)

-- what `int` makes of a text with no space around it; digit groups joined by `_` are not read
unfoldable pub parse_int : String → Option ℤ
unfolding digits minus plus
parse_int String.[] = none
parse_int (String.◌∷◌ c s) =
    if code c == b'-' && not (str_eq s "")
    then minus (digits 0 s)
    else if code c == b'+' && not (str_eq s "")
    then plus (digits 0 s)
    else plus (digits 0 (String.◌∷◌ c s))

unfoldable pub push_char : Char → List String → List String
push_char c [] = String.◌∷◌ c "" ∷ []
push_char c (w ∷ ws) = String.◌∷◌ c w ∷ ws

-- s.split(c), for the character that a test picks
unfoldable pub split : (Char → Bool) → String → List String
unfolding push_char
split p String.[] = "" ∷ []
split p (String.◌∷◌ c s) = let rest = split p s in if p c then "" ∷ rest else push_char c rest

abbrev pub is_comma : Char → Bool
is_comma c = code c == b','

same_char : Char → Char → Bool
same_char c d = code c == code d

-- s.startswith(p)
unfoldable pub starts_with : String → String → Bool
unfolding same_char
starts_with String.[] s = true
starts_with (String.◌∷◌ c p) String.[] = false
starts_with (String.◌∷◌ c p) (String.◌∷◌ d s) = same_char c d && starts_with p s

-- p in s
unfoldable pub has_part : String → String → Bool
unfolding starts_with
has_part p String.[] = starts_with p ""
has_part p (String.◌∷◌ c s) = starts_with p (String.◌∷◌ c s) || has_part p s

-- s[n:]
unfoldable pub skip : ℕ → String → String
skip zero s = s
skip (suc n) String.[] = ""
skip (suc n) (String.◌∷◌ c s) = skip n s
