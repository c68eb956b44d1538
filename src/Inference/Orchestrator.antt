-- ===== src/Inference/Orchestrator.antt =====
-- `ThreatModelOrchestrator.evaluate` of inference/models.py: the network alone, on an event that is decoded.
use ai_cyber_threat_detector.Common.{
  ℕ, false, ◌&&◌, Option, some, List, [], ◌∷◌, String, if◌then◌else◌,
}
use ai_cyber_threat_detector.Common.Dict
use ai_cyber_threat_detector.Common.Dict.{Dict}
use ai_cyber_threat_detector.Detection.Event.{Value, text, is_text}
use ai_cyber_threat_detector.Inference.Predict.{Network, Verdict, no_verdict, predict}

pub record Flagged : Type 0 where
  pub threat_class : String
  pub severity : String
  pub confidence : ℕ
  pub rule_id : String

abbrev pub flagged_dga : ℕ → Flagged
flagged_dga prob = record {
  threat_class = "DGA / DNS Tunnelling";
  severity = "high";
  confidence = prob;
  rule_id = "DL_CNN_DGA";
}

module _ (net : Network) where
  -- `predict` without a deadline; a query that is no text is not looked at
  unfoldable pub asked_of : Option Value → Verdict
  unfolding predict
  asked_of (some (text query)) = predict net false false query
  asked_of _ = no_verdict

  unfoldable pub evaluate : Dict Value → List Flagged
  unfolding asked_of is_text
  evaluate event =
      let verdict = asked_of (Dict.get event "query") in
      if is_text (Dict.get event "event_type") "dns" && verdict.0
      then flagged_dga verdict.1 ∷ []
      else []
