-- ===== src/Benchmark/Evaluate.antt =====
-- `evaluate_record` of scripts/benchmark_throughput.py, which stands for the first stages of `process_traffic`, and the count of
-- `run_benchmark`. The times that it measures are left out.
use Prim.Native.String.{count}
use ai_cyber_threat_detector.Common.{
  ℕ, ◌+◌, ◌≡◌, refl, sym, ap, Bool, true, false, not, ◌&&◌, Option, none, some, List, [], ◌∷◌, ◌++◌,
  String, str_eq, if◌then◌else◌, leb, map, Bool-cases, inl, inr, is_empty, ◌>>=◌,
}
use ai_cyber_threat_detector.Common.Dict
use ai_cyber_threat_detector.Common.Dict.{Dict}
use ai_cyber_threat_detector.Common.Text.{strip}
use ai_cyber_threat_detector.Detection.Event
use ai_cyber_threat_detector.Detection.Event.{Value, text, nested, is_text, is_falsy}
use ai_cyber_threat_detector.Detection.Features.{Features, extract_features}
use ai_cyber_threat_detector.Detection.Rules
use ai_cyber_threat_detector.Detection.Rules.{evaluate_rules}
use ai_cyber_threat_detector.Stream.Detect.{
  Finding, DlAnswer, predicted, of_rule, of_network, detections, dl_stage, dl_findings, asked_query,
  dl_query,
}

module _ (predict : Features → String → Bool × ℕ) where
  unfoldable pub judged : Features → String → List Finding
  judged features query =
      let (is_dga, prob) = predict features query in if is_dga then of_network prob ∷ [] else []

  -- What the network adds, for `record.get("query", "")`. A list is long enough to be asked about, but no text; `none` is the TypeError of `len`.
  unfoldable pub dns_findings : Features → Option Value → Option (List Finding)
  unfolding judged is_falsy
  dns_findings features none = some []
  dns_findings features (some (text query)) =
      some (if not (str_eq query "") && leb (count query) 253 then judged features query else [])
  dns_findings features (some (nested empty)) = some []
  dns_findings features (some v) = if is_falsy v then some [] else none

  module _ (malicious : List String) (str_of : Value → String) (entropy : String → ℕ) where
    unfoldable pub with_features : Dict Value → Features → Option (List Finding)
    unfolding dns_findings is_text
    with_features event features = do
      alerts ← evaluate_rules malicious str_of event features
      added ←
          if is_text (Dict.get event "event_type") "dns"
          then dns_findings features (Dict.get event "query")
          else some []
      some (map of_rule alerts ++ added)

    -- `none` is an exception, which ends the benchmark
    unfoldable pub evaluate_record : Dict Value → Option (List Finding)
    unfolding with_features
    evaluate_record event = elim (extract_features entropy event) [
      | none ↦ none
      | some features ↦ with_features event features
    ]

    -- alerts_count
    unfoldable pub run_benchmark : List (Dict Value) → Option ℕ
    unfolding evaluate_record
    run_benchmark [] = some 0
    run_benchmark (r ∷ records) = do
      found ← evaluate_record r
      rest ← run_benchmark records
      some (if is_empty found then rest else rest + 1)

    -- `predict` as the handler sees it when it answers in time
    abbrev pub answering : Features → String → DlAnswer
    answering f q = predicted (predict f q).0 (predict f q).1

    module _ (event : Dict Value) (features : Features) (query : String)
        (bare : dl_query str_of (Dict.get event "query") ≡ query) where
      dl_stage_other :
          is_text (Dict.get event "event_type") "dns" ≡ false
          → dl_stage malicious str_of answering event features ≡ []
      unfolding dl_stage asked_query
      dl_stage_other e = rw (e, dl_stage) refl

      dl_stage_dns :
          is_text (Dict.get event "event_type") "dns" ≡ true
          → dl_stage malicious str_of answering event features
            ≡ (if not (str_eq query "") && leb (count query) 253 then judged features query else [])
      unfolding dl_stage asked_query dl_findings judged
      dl_stage_dns e = elim (Bool-cases (not (str_eq query "") && leb (count query) 253)) [
        | inl f ↦ rw (bare, e, f, dl_stage) refl
        | inr f ↦ rw (bare, e, f, dl_stage) refl
      ]

    -- no query, or a text without spaces around it
    abbrev pub IsBare : Option Value → Type 0
    IsBare none = Unit
    IsBare (some (text query)) = strip query ≡ query
    IsBare (some v) = ⊥

    -- the two ask the network about the same query
    asked_same :
        (o : Option Value) (features : Features)
        → IsBare o
        → (query : String) × (dl_query str_of o ≡ query)
          × (dns_findings features o
              ≡ some (
                  if not (str_eq query "") && leb (count query) 253
                  then judged features query
                  else []))
    unfolding dl_query dns_findings
    asked_same none features h = ("", refl, refl)
    asked_same (some (text query)) features h = (query, h, refl)
    asked_same (some Event.null) features h = elim h [ ]
    asked_same (some (Event.flag b)) features h = elim h [ ]
    asked_same (some (Event.int n)) features h = elim h [ ]
    asked_same (some (Event.float n m)) features h = elim h [ ]
    asked_same (some (nested empty)) features h = elim h [ ]

    -- The benchmark finds what the handler of the stream finds: for an event that has no query, or one that is a text without spaces around
    -- it, and on which the features and the rules raise nothing, `evaluate_record` returns the detections of `process_traffic` with a network that answers in time.
    pub evaluate_record-detections :
        (event : Dict Value) (features : Features) (alerts : List Rules.Alert)
        → extract_features entropy event ≡ some features
        → evaluate_rules malicious str_of event features ≡ some alerts
        → IsBare (Dict.get event "query")
        → evaluate_record event ≡ some (detections malicious str_of answering event features)
    unfolding evaluate_record detections
    evaluate_record-detections event features alerts read rules bare =
        let (query, asked, found) = asked_same (Dict.get event "query") features bare in
        elim (Bool-cases (is_text (Dict.get event "event_type") "dns")) [
          | inl e ↦
              rw (read, evaluate_record, rules, e, found, evaluate_record)
                (ap (λ l. some (map of_rule alerts ++ l))
                  (sym (dl_stage_dns event features query asked e)))
          | inr e ↦
              rw (read, evaluate_record, rules, e)
                (ap (λ l. some (map of_rule alerts ++ l))
                  (sym (dl_stage_other event features query asked e)))
        ]
