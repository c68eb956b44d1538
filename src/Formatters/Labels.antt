-- ===== src/Formatters/Labels.antt =====
-- `format_timestamp` and `format_mitre` of shared/formatters.py. The parser of dateutil is a parameter, with what strftime prints.
use Prim.Native.String.{◌++◌}
use ai_cyber_threat_detector.Common.{◌&&◌, Option, none, some, String, str_eq, if◌then◌else◌}

-- `isoparse` is none for a text that it does not read, or prints as the format says
unfoldable pub format_timestamp : (isoparse : String → Option String) → String → String
format_timestamp isoparse iso_str =
    if str_eq iso_str ""
    then "Unknown Time"
    else (elim (isoparse iso_str) [ some printed ↦ printed ++ " UTC" | none ↦ "Invalid Time" ])

unfoldable pub format_mitre : (tactic technique : String) → String
format_mitre tactic technique =
    if str_eq tactic "" && str_eq technique ""
    then "Unmapped"
    else if str_eq technique ""
    then tactic
    else tactic ++ (" (" ++ (technique ++ ")"))
