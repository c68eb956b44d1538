-- ===== src/Common/Case.antt =====
-- The case of texts: that of ASCII letters is changed, any other character is left as it is.
use Prim.Native.Char.{Char, code}
use Prim.Native.String.{String}
use ai_cyber_threat_detector.Common.Tests.{◌==◌, if◌then◌else◌}

unfoldable pub lower_char : Char → Char
lower_char c =
    if code c == b'A'
    then "a"
    else if code c == b'B'
    then "b"
    else if code c == b'C'
    then "c"
    else if code c == b'D'
    then "d"
    else if code c == b'E'
    then "e"
    else if code c == b'F'
    then "f"
    else if code c == b'G'
    then "g"
    else if code c == b'H'
    then "h"
    else if code c == b'I'
    then "i"
    else if code c == b'J'
    then "j"
    else if code c == b'K'
    then "k"
    else if code c == b'L'
    then "l"
    else if code c == b'M'
    then "m"
    else if code c == b'N'
    then "n"
    else if code c == b'O'
    then "o"
    else if code c == b'P'
    then "p"
    else if code c == b'Q'
    then "q"
    else if code c == b'R'
    then "r"
    else if code c == b'S'
    then "s"
    else if code c == b'T'
    then "t"
    else if code c == b'U'
    then "u"
    else if code c == b'V'
    then "v"
    else if code c == b'W'
    then "w"
    else if code c == b'X'
    then "x"
    else if code c == b'Y'
    then "y"
    else if code c == b'Z'
    then "z"
    else c

unfoldable pub upper_char : Char → Char
upper_char c =
    if code c == b'a'
    then "A"
    else if code c == b'b'
    then "B"
    else if code c == b'c'
    then "C"
    else if code c == b'd'
    then "D"
    else if code c == b'e'
    then "E"
    else if code c == b'f'
    then "F"
    else if code c == b'g'
    then "G"
    else if code c == b'h'
    then "H"
    else if code c == b'i'
    then "I"
    else if code c == b'j'
    then "J"
    else if code c == b'k'
    then "K"
    else if code c == b'l'
    then "L"
    else if code c == b'm'
    then "M"
    else if code c == b'n'
    then "N"
    else if code c == b'o'
    then "O"
    else if code c == b'p'
    then "P"
    else if code c == b'q'
    then "Q"
    else if code c == b'r'
    then "R"
    else if code c == b's'
    then "S"
    else if code c == b't'
    then "T"
    else if code c == b'u'
    then "U"
    else if code c == b'v'
    then "V"
    else if code c == b'w'
    then "W"
    else if code c == b'x'
    then "X"
    else if code c == b'y'
    then "Y"
    else if code c == b'z'
    then "Z"
    else c

-- s.lower()
unfoldable pub lower : String → String
unfolding lower_char
lower String.[] = String.[]
lower (String.◌∷◌ c s) = String.◌∷◌ (lower_char c) (lower s)

-- s.upper()
unfoldable pub upper : String → String
unfolding upper_char
upper String.[] = String.[]
upper (String.◌∷◌ c s) = String.◌∷◌ (upper_char c) (upper s)
