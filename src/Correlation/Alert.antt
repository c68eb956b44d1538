-- ===== src/Correlation/Alert.antt =====
-- How `add_alert` and `rollback_alert_seen` of inference/correlation.py call the two scripts: the keys, the severity,
-- and the guards before them.
use Prim.Native.Char.{Char, code}
use Prim.Native.String.{◌++◌, count}
use ai_cyber_threat_detector.Common.{
  ℕ, zero, suc, Bool, true, false, ◌&&◌, ◌||◌, Option, none, some, [], ◌∷◌, String, ltb, leb, ◌==◌,
  str_eq, if◌then◌else◌, or_else,
}
use ai_cyber_threat_detector.Common.Case.{lower}
use ai_cyber_threat_detector.Common.Text.{strip}
use ai_cyber_threat_detector.Common.Dict
use ai_cyber_threat_detector.Common.Dict.{Dict}
use ai_cyber_threat_detector.Redis.{Redis}
use ai_cyber_threat_detector.Correlation.Scripts.{Call, Outcome, correlate, rollback}

-- What the methods read of an alert, where `str` has been applied and a missing key has its default; `json` is
-- its dump, and `is_replay` the truth value.
pub record Alert : Type 0 where
  pub source_ip : String
  pub threat_class : String
  pub severity : String
  pub alert_id : String
  pub json : String
  pub is_replay : Bool

-- self.time_window_sec
abbrev pub time_window_sec : ℕ
time_window_sec = 300

-- [A-Za-z0-9_ ]
unfoldable pub is_safe_char : Char → Bool
is_safe_char c =
    (leb 65 (code c) && leb (code c) 90)
    || ((leb 97 (code c) && leb (code c) 122)
        || ((leb 48 (code c) && leb (code c) 57) || (code c == 95 || code c == 32)))

-- the safe characters, with an underscore for a space
unfoldable pub safe_chars : String → String
safe_chars String.[] = ""
safe_chars (String.◌∷◌ c s) =
    let rest = safe_chars s in
    if is_safe_char c then String.◌∷◌ (if code c == 32 then "_" else c) rest else rest

-- s[:n]
unfoldable pub cut : ℕ → String → String
cut zero s = ""
cut (suc n) String.[] = ""
cut (suc n) (String.◌∷◌ c s) = String.◌∷◌ c (cut n s)

unfoldable pub safe_threat : String → String
safe_threat threat_class =
    let safe = cut 64 (safe_chars threat_class) in if str_eq safe "" then "unknown" else safe

abbrev pub key_name : String → String
key_name src_ip = ("{" ++ src_ip) ++ "}:alerts"

abbrev pub dedup_name : String → String → String
dedup_name src_ip safe = (("{" ++ src_ip) ++ "}:dedup:") ++ safe

abbrev pub sev_weights : Dict ℕ
sev_weights = ("critical", 100) ∷ ("high", 75) ∷ ("medium", 50) ∷ ("low", 25) ∷ []

unfoldable pub sev_score : String → ℕ
sev_score severity = or_else (Dict.get sev_weights (strip (lower severity))) 25

-- `ip_text` is `str(ipaddress.ip_address(s))`, `none` its ValueError
module _ (ip_text : String → Option String) where
  -- the call of CORRELATE_LUA, if the source address is accepted
  unfoldable pub correlate_call : Alert → Option Call
  correlate_call alert = elim (ip_text (strip alert.source_ip)) [
    | none ↦ none
    | some src_ip ↦
        if ltb 45 (count src_ip)
        then none
        else some (record {
          key_name = key_name src_ip;
          dedup_name = dedup_name src_ip (safe_threat alert.threat_class);
          alert_json = alert.json;
          window = time_window_sec;
          severity_score = sev_score alert.severity;
          alert_id = alert.alert_id;
          is_replay = alert.is_replay;
        })
  ]

  -- The call of ROLLBACK_LUA: here the id is stripped, and the length of the address is not tested. The script
  -- reads neither window, severity nor replay mark.
  unfoldable pub rollback_call : Alert → Option Call
  rollback_call alert = elim (ip_text (strip alert.source_ip)) [
    | none ↦ none
    | some src_ip ↦ some (record {
      key_name = key_name src_ip;
      dedup_name = dedup_name src_ip (safe_threat alert.threat_class);
      alert_json = alert.json;
      window = time_window_sec;
      severity_score = sev_score alert.severity;
      alert_id = strip alert.alert_id;
      is_replay = alert.is_replay;
    })
  ]

  module _ (r : Redis) where
    -- `add_alert` up to the report: `is_master` is what `check_redis_master` answers
    unfoldable pub add_alert :
        (is_master : Bool) → Alert → Redis.State r → Option Outcome × Redis.State r
    add_alert false alert s = (none, s)
    add_alert true alert s = elim (correlate_call alert) [
      | none ↦ (none, s)
      | some c ↦ let (outcome, s') = correlate r c s in (some outcome, s')
    ]

    unfoldable pub rollback_alert_seen : Alert → Redis.State r → Redis.State r
    rollback_alert_seen alert s = elim (rollback_call alert) [ none ↦ s | some c ↦ rollback r c s ]
