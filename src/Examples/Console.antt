-- ===== src/Examples/Console.antt =====
-- A failover of Redis, a record of the benchmark, and the queue of the terminal.
use Prim.Native.String.{count}
use mathlib.Core.List.{Memᴰ}
use ai_cyber_threat_detector.Common.{
  ℕ, ◌≡◌, ◌↔◌, refl, Bool, true, false, none, some, List, [], ◌∷◌, String, map,
}
use ai_cyber_threat_detector.Common.Dict
use ai_cyber_threat_detector.Common.Dict.{Dict}
use ai_cyber_threat_detector.Common.Text.{strip}
use ai_cyber_threat_detector.Detection.Event.{Value, text}
use ai_cyber_threat_detector.Detection.Features.{
  Features, extract_features, query_features, extract_dns_features,
}
use ai_cyber_threat_detector.Detection.Rules.{evaluate_rules, dns_rules}
use ai_cyber_threat_detector.Stream.Detect.{detections}
use ai_cyber_threat_detector.Benchmark.Evaluate.{
  evaluate_record, answering, evaluate_record-detections,
}
use ai_cyber_threat_detector.DataAccess.Polling.{Alert}
use ai_cyber_threat_detector.DataAccess.Incidents.{Incident, get_incidents, incidents_by_src}
use ai_cyber_threat_detector.Terminal.Console.{on_mount, row_of, update_queue}
use ai_cyber_threat_detector.Terminal.Ranked.{IsRanked, IsDistinct}
use ai_cyber_threat_detector.Terminal.Queue.{update_queue-get_incidents}

abbrev lookup : Dict Value
lookup = ("event_type", text "dns") ∷ ("query", text "a.b") ∷ []

abbrev suspicious : Features → String → Bool × ℕ
suspicious f q = (true, 97)

abbrev str_of : Value → String
str_of v = ""

evaluate_record-detections_example :
    evaluate_record suspicious [] str_of count lookup
    ≡ some (
        detections [] str_of
          (answering suspicious [] str_of count)
          lookup
          (query_features count "a.b"))
unfolding extract_features extract_dns_features evaluate_rules dns_rules Dict.get strip
evaluate_record-detections_example =
    evaluate_record-detections suspicious [] str_of count lookup (query_features count "a.b") []
      refl refl refl

abbrev seen : Alert
seen = record {
  source_ip = some "10.0.0.1";
  destination_ip = none;
  timestamp = none;
  severity = some "high";
  threat_class = some "DDoS";
  alert_id = some "a";
}

abbrev str_int : ℕ → String
str_int n = "1"

abbrev same_text : String → String
same_text s = s

update_queue-get_incidents_example :
    (l : List Incident) × (map some
        (update_queue same_text str_int false
          (get_incidents str_int "now" (seen ∷ []))
          on_mount).queue
      ≡ map (row_of same_text str_int) l)
    × IsRanked l
    × IsDistinct l
    × ((x : Incident) → Memᴰ x l ↔ Memᴰ x (get_incidents str_int "now" (seen ∷ [])))
unfolding on_mount get_incidents incidents_by_src Dict.put
update_queue-get_incidents_example =
    update_queue-get_incidents str_int "now" same_text str_int false (seen ∷ []) on_mount refl
      (tt, tt)
