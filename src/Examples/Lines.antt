-- ===== src/Examples/Lines.antt =====
-- Three lines through the log shipper: an event, a blank line and one that is no JSON.
use ai_cyber_threat_detector.Common.{◌+◌, ◌≡◌, refl, List, [], ◌∷◌}
use ai_cyber_threat_detector.Common.Dict
use ai_cyber_threat_detector.Common.Text.{strip}
use ai_cyber_threat_detector.Detection.Event.{null, text}
use ai_cyber_threat_detector.Ingest.Tail.{
  Turn, object, invalid, sent, fresh, tail, turn, ship, publish, reject, validate_zeek_event,
}
use ai_cyber_threat_detector.Ingest.Counts.{lines, contents, tail_accounts}

abbrev good : Turn
good = record {
  line = "{ts}";
  decoded = object (("ts", null) ∷ ("event_type", text "forged") ∷ []);
  now = null;
  send_raw = sent;
  send_dead = sent;
}

abbrev turns : List Turn
turns = good ∷ record good { line = " " } ∷ record good { decoded = invalid } ∷ []

tail_accounts_example :
    ((tail "sensor-01" "conn" turns fresh).read ≡ lines turns)
    × ((tail "sensor-01" "conn" turns fresh).published
          + (tail "sensor-01" "conn" turns fresh).rejected
        ≡ contents turns)
unfolding tail turn ship publish reject validate_zeek_event Dict.get strip
tail_accounts_example = tail_accounts "sensor-01" "conn" turns refl
