-- ===== src/Detection/Event.antt =====
-- A decoded Zeek event, and the defensive reads of inference/features.py.
use ai_cyber_threat_detector.Common.{
  Bool, true, false, ◌||◌, Option, none, some, String, str_eq, if◌then◌else◌, not, ◌==◌,
}
use ai_cyber_threat_detector.Common.Int.{negsuc, ℤ, pos}
use ai_cyber_threat_detector.Common.Text.{strip, parse_int}

-- A finite float is given by the integer part that `int` takes, and by whether it is 0; a list or a dict by
-- whether it is empty.
pub data Value : Type 0 where
  null : Value
  flag : Bool → Value
  int : ℤ → Value
  float : (zero : Bool) → ℤ → Value
  text : String → Value
  nested : (empty : Bool) → Value

-- Python's truth value
unfoldable pub is_falsy : Value → Bool
is_falsy null = true
is_falsy (flag b) = not b
is_falsy (int (pos n)) = n == 0
is_falsy (int (negsuc n)) = false
is_falsy (float z n) = z
is_falsy (text s) = str_eq s ""
is_falsy (nested e) = e

-- `value == "..."`
unfoldable pub is_text : Option Value → String → Bool
is_text (some (text s)) t = str_eq s t
is_text _ t = false

unfoldable pub or_zero : Option ℤ → ℤ
or_zero none = pos 0
or_zero (some n) = n

-- `safe_int`: the nulls of Zeek and what `int` refuses are 0. `none` is the TypeError of `int` on a list
-- or a dict, which the function does not catch.
unfoldable pub safe_int : Option Value → Option ℤ
unfolding or_zero
safe_int none = some (pos 0)
safe_int (some null) = some (pos 0)
safe_int (some (flag b)) = some (if b then pos 1 else pos 0)
safe_int (some (int n)) = some n
safe_int (some (float z n)) = some n
safe_int (some (text s)) =
    if str_eq s "-" || str_eq s "" then some (pos 0) else some (or_zero (parse_int (strip s)))
safe_int (some (nested e)) = none
