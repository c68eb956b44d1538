-- ===== src/Simulator/Traffic.antt =====
-- The events of ingest/simulator.py. What `random`, `uuid` and the clock give is drawn beforehand; a number that a branch draws anew has a
-- field of its own.
use Prim.Native.String.{◌++◌}
use ai_cyber_threat_detector.Common.{
  ℕ, ◌+◌, ◌%◌, Bool, true, false, Option, none, some, List, [], ◌∷◌, String, if◌then◌else◌, ◌==◌,
}
use ai_cyber_threat_detector.Common.Dict
use ai_cyber_threat_detector.Common.Dict.{Dict}
use ai_cyber_threat_detector.Common.Int.{ℤ, pos}
use ai_cyber_threat_detector.Detection.Event.{Value, int, float, text, flag, nested}

pub data Scenario : Type 0 where
  normal_traffic dga_only port_scan_only mixed : Scenario

-- the values of `attack_type`, but the empty one
pub data Attack : Type 0 where
  dga_dns_tunnelling reconnaissance ddos data_exfiltration encrypted_malware c2_beaconing dga
        port_scan :
      Attack

unfoldable pub attack_name : Attack → String
attack_name dga_dns_tunnelling = "dga_dns_tunnelling"
attack_name reconnaissance = "reconnaissance"
attack_name ddos = "ddos"
attack_name data_exfiltration = "data_exfiltration"
attack_name encrypted_malware = "encrypted_malware"
attack_name c2_beaconing = "c2_beaconing"
attack_name dga = "dga"
attack_name port_scan = "port_scan"

-- `attack_type if is_attack else "normal"`, where the attack is none unless `is_attack`
unfoldable pub attack_label : Option Attack → String
unfolding attack_name
attack_label none = "normal"
attack_label (some a) = attack_name a

pub record Draws : Type 0 where
  pub ts : ℤ
  pub uid : String
  pub src_ip : String
  pub dst_ip : String
  pub orig_p : ℕ
  pub dst_port : ℕ
  pub orig_bytes : ℕ
  pub resp_bytes : ℕ
  pub orig_pkts : ℕ
  pub resp_pkts : ℕ
  pub duration : ℤ
  pub scan_pkts : ℕ
  pub scan_port : ℕ
  pub flood_pkts : ℕ
  pub flood_port : ℕ
  pub upload_bytes : ℕ
  pub upload_reply : ℕ
  pub beacon_bytes : ℕ
  pub beacon_reply : ℕ
  pub beacon_port : ℕ
  pub hex_a : String
  pub hex_b : String
  pub hex_c : String
  pub normal_domain : String
  pub dga_domain : String
  pub trans_id : ℕ
  pub rtt : ℤ

-- the variables of `generate_conn_log` that an attack sets
pub record Flow : Type 0 where
  pub dst_port : ℕ
  pub conn_state : String
  pub orig_bytes : ℕ
  pub resp_bytes : ℕ
  pub orig_pkts : ℕ

unfoldable pub flow_of : Option Attack → Draws → Flow
flow_of attack d =
    let f : Flow = record {
      dst_port = d.dst_port;
      conn_state = "SF";
      orig_bytes = d.orig_bytes;
      resp_bytes = d.resp_bytes;
      orig_pkts = d.orig_pkts;
    } in
    elim attack [
      | some reconnaissance ↦ record f {
        conn_state = "S0";
        orig_pkts = d.scan_pkts;
        dst_port = d.scan_port;
      }
      | some ddos ↦ record f {
        conn_state = "REJ";
        orig_pkts = d.flood_pkts;
        dst_port = d.flood_port;
      }
      | some data_exfiltration ↦ record f {
        orig_bytes = d.upload_bytes;
        resp_bytes = d.upload_reply;
      }
      | some c2_beaconing ↦ record f {
        orig_bytes = d.beacon_bytes;
        resp_bytes = d.beacon_reply;
        dst_port = d.beacon_port;
      }
      | _ ↦ f
    ]

unfoldable pub service_of : ℕ → String
service_of dst_port = if dst_port == 80 then "http" else if dst_port == 443 then "ssl" else "other"

abbrev pub number : ℕ → Value
number n = int (pos n)

unfoldable pub conn_event : Option Attack → Draws → Flow → Dict Value
unfolding attack_label service_of
conn_event attack d f =
    ("ts", float false d.ts)
    ∷ ("uid", text ("C" ++ d.uid))
    ∷ ("id.orig_h", text d.src_ip)
    ∷ ("id.orig_p", number d.orig_p)
    ∷ ("id.resp_h", text d.dst_ip)
    ∷ ("id.resp_p", number f.dst_port)
    ∷ ("proto", text "tcp")
    ∷ ("service", text (service_of f.dst_port))
    ∷ ("duration", float false d.duration)
    ∷ ("orig_bytes", number f.orig_bytes)
    ∷ ("resp_bytes", number f.resp_bytes)
    ∷ ("conn_state", text f.conn_state)
    ∷ ("missed_bytes", number 0)
    ∷ ("history", text "ShADadFf")
    ∷ ("orig_pkts", number f.orig_pkts)
    ∷ ("resp_pkts", number d.resp_pkts)
    ∷ ("event_type", text "conn")
    ∷ ("sensor_id", text "sim-01")
    ∷ ("simulated", flag true)
    ∷ ("attack_label", text (attack_label attack))
    ∷ []

unfoldable pub generate_conn_log : Option Attack → Draws → Dict Value
unfolding conn_event flow_of
generate_conn_log (some encrypted_malware) d =
    Dict.put (conn_event (some encrypted_malware) d (flow_of (some encrypted_malware) d)) "ja4"
      (text "t13d000000_rare_fingerprint")
generate_conn_log attack d = conn_event attack d (flow_of attack d)

-- the query, and whether it is a TXT query
unfoldable pub query_of : Option Attack → Draws → String × Bool
query_of (some dga_dns_tunnelling) d =
    (d.hex_a ++ (d.hex_b ++ (d.hex_c ++ ".malicious-tunnel.com")), true)
query_of (some dga) d = (d.dga_domain, false)
query_of attack d = (d.normal_domain, false)

unfoldable pub is_attack : Option Attack → Bool
is_attack none = false
is_attack (some a) = true

unfoldable pub generate_dns_log : Option Attack → Draws → Dict Value
unfolding query_of attack_label is_attack
generate_dns_log attack d =
    let (domain, is_txt) = query_of attack d in
    ("ts", float false d.ts)
    ∷ ("uid", text ("C" ++ d.uid))
    ∷ ("id.orig_h", text d.src_ip)
    ∷ ("id.orig_p", number d.orig_p)
    ∷ ("id.resp_h", text "8.8.8.8")
    ∷ ("id.resp_p", number 53)
    ∷ ("proto", text "udp")
    ∷ ("trans_id", number d.trans_id)
    ∷ ("rtt", float false d.rtt)
    ∷ ("query", text domain)
    ∷ ("qclass", number 1)
    ∷ ("qclass_name", text "C_INTERNET")
    ∷ ("qtype", number (if is_txt then 16 else 1))
    ∷ ("qtype_name", text (if is_txt then "TXT" else "A"))
    ∷ ("rcode", number (if is_attack attack then 3 else 0))
    ∷ ("rcode_name", text (if is_attack attack then "NXDOMAIN" else "NOERROR"))
    ∷ ("AA", flag false)
    ∷ ("TC", flag false)
    ∷ ("RD", flag true)
    ∷ ("RA", flag true)
    ∷ ("Z", number 0)
    ∷ ("answers", nested false)
    ∷ ("TTLs", nested false)
    ∷ ("rejected", flag false)
    ∷ ("event_type", text "dns")
    ∷ ("sensor_id", text "sim-01")
    ∷ ("simulated", flag true)
    ∷ ("attack_label", text (attack_label attack))
    ∷ []

-- The attack of a round: `hit` is `random.random() < 0.2`, and `pick` the choice among the attacks of the mixed scenario.
unfoldable pub attack_of : Scenario → (hit : Bool) → (pick : Attack) → Option Attack
attack_of normal_traffic hit pick = none
attack_of mixed hit pick = if hit then some pick else none
attack_of dga_only hit pick = if hit then some dga else none
attack_of port_scan_only hit pick = if hit then some port_scan else none

-- the event of a round; `lookup` is `random.random() < 0.3`
unfoldable pub next_event : Option Attack → (lookup : Bool) → Draws → Dict Value
unfolding generate_conn_log generate_dns_log
next_event (some dga_dns_tunnelling) lookup d = generate_dns_log (some dga_dns_tunnelling) d
next_event (some a) lookup d = generate_conn_log (some a) d
next_event none lookup d = if lookup then generate_dns_log none d else generate_conn_log none d

-- what the loop does with its producer
pub data Action : Type 0 where
  send : Dict Value → Action
  flush : Action

pub record Round : Type 0 where
  pub hit : Bool
  pub pick : Attack
  pub lookup : Bool
  pub draws : Draws

-- The loop, for the rounds until the interrupt, which ends it with a flush.
unfoldable pub main_loop : Scenario → (count : ℕ) → List Round → List Action
unfolding attack_of next_event
main_loop scenario count [] = flush ∷ []
main_loop scenario count (r ∷ rounds) =
    let event = next_event (attack_of scenario r.hit r.pick) r.lookup r.draws in
    let rest = main_loop scenario (count + 1) rounds in
    send event ∷ (if (count + 1) % 5000 == 0 then flush ∷ rest else rest)
