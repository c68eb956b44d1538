-- ===== src/Examples/Texts.antt =====
-- Traffic of the simulator, and a text of an attacker in the dashboard.
use Prim.Native.String.{count}
use mathlib.Core.List.{Memᴰ}
use ai_cyber_threat_detector.Common.{◌≡◌, refl, true, false, some, List, [], ◌∷◌, String, arith}
use ai_cyber_threat_detector.Common.Int.{pos}
use ai_cyber_threat_detector.Detection.Event.{Value}
use ai_cyber_threat_detector.Detection.Rules.{Alert}
use ai_cyber_threat_detector.Simulator.Traffic.{Draws, ddos, mixed, next_event, attack_of}
use ai_cyber_threat_detector.Simulator.Drawn.{IsDrawn}
use ai_cyber_threat_detector.Simulator.Verdicts.{Judged, evaluate, next_event-Judged}
use ai_cyber_threat_detector.Formatters.Markdown.{
  unescaped, escape_markdown, is_inert, is_special, escape_markdown-is_inert,
}

abbrev hex : String
hex = "0123456789abcdef0123456789abcdef"

abbrev draws : Draws
draws = record {
  ts = pos 0;
  uid = "0123456789abcdef01";
  src_ip = "192.168.1.10";
  dst_ip = "8.8.1.1";
  orig_p = 5000;
  dst_port = 443;
  orig_bytes = 100;
  resp_bytes = 100;
  orig_pkts = 5;
  resp_pkts = 5;
  duration = pos 1;
  scan_pkts = 2;
  scan_port = 22;
  flood_pkts = 20000;
  flood_port = 80;
  upload_bytes = 6000000;
  upload_reply = 100;
  beacon_bytes = 60;
  beacon_reply = 60;
  beacon_port = 4444;
  hex_a = hex;
  hex_b = hex;
  hex_c = hex;
  normal_domain = "google.com";
  dga_domain = "agjzzyxb.com";
  trans_id = 1000;
  rtt = pos 0;
}

draws-IsDrawn : IsDrawn draws
draws-IsDrawn = record {
  port = Memᴰ.tail (Memᴰ.head refl);
  up = omega arith;
  down = omega arith;
  pkts = omega arith;
  scan = omega arith;
  flood = omega arith;
  upload = omega arith;
  reply = omega arith;
  beacon = omega arith;
  answer = omega arith;
  contact = Memᴰ.head refl;
  a = refl;
  b = refl;
  c = refl;
  domain = Memᴰ.head refl;
}

abbrev known : List String
known = "t13d000000_rare_fingerprint" ∷ []

abbrev str_of : Value → String
str_of v = ""

next_event-Judged_example :
    (alerts : List Alert) × (evaluate known str_of count
        (next_event (attack_of mixed true ddos) false draws)
      ≡ some alerts)
    × Judged (attack_of mixed true ddos) alerts
next_event-Judged_example =
    next_event-Judged known str_of count mixed true false ddos draws refl draws-IsDrawn

escape_markdown-is_inert_example :
    (unescaped false (escape_markdown "`[x](http://a.b)") ≡ "`[x](http://a.b)")
    × (is_inert false (escape_markdown "`[x](http://a.b)") ≡ true)
escape_markdown-is_inert_example = escape_markdown-is_inert "`[x](http://a.b)"

-- an autolink is left: the pattern has no "<"
escape_markdown_cases : escape_markdown "<http://a>" ≡ "<http://a\\>"
unfolding escape_markdown is_special
escape_markdown_cases = refl
