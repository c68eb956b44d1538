-- ===== src/Examples/Events.antt =====
-- A flood and a query through the rules of inference/rules.py.
use ai_cyber_threat_detector.Common.{◌≡◌, refl, some, List, [], ◌∷◌, String}
use ai_cyber_threat_detector.Common.Dict
use ai_cyber_threat_detector.Common.Dict.{Dict}
use ai_cyber_threat_detector.Common.Int.{pos}
use ai_cyber_threat_detector.Detection.Event.{Value, int, text, is_text, safe_int}
use ai_cyber_threat_detector.Detection.Features.{no_features}
use ai_cyber_threat_detector.Detection.Rules.{
  Alert, conn_alerts, conn_rules, ja4_text, evaluate_rules,
}

abbrev flood : Dict Value
flood =
    ("event_type", text "conn")
    ∷ ("orig_pkts", int (pos 20000))
    ∷ ("id.resp_p", int (pos 80))
    ∷ ("conn_state", text "S0")
    ∷ ("ja4", text "bad")
    ∷ []

abbrev fingerprints : List String
fingerprints = "bad" ∷ []

abbrev str_of : Value → String
str_of v = "?"

abbrev alerts_of_flood : List Alert
alerts_of_flood =
    conn_alerts fingerprints (some (text "S0")) (pos 20000) (some (int (pos 80))) (pos 80) (pos 0)
      (pos 0) "bad"

flood_evaluated : evaluate_rules fingerprints str_of flood no_features ≡ some alerts_of_flood
unfolding evaluate_rules conn_rules is_text safe_int ja4_text Dict.get
flood_evaluated = refl
