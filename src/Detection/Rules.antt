-- ===== src/Detection/Rules.antt =====
-- `evaluate_rules` of inference/rules.py. Confidences are in hundredths, entropies in thousandths rounded up. Each
-- rule of the source's run of `if`s is a function of its own, in the source's order.
use Prim.Native.String.{count}
use ai_cyber_threat_detector.Common.{
  ◌>>=◌, ℕ, Bool, false, not, ◌&&◌, Option, none, some, List, [], ◌∷◌, ◌++◌, String, str_eq,
  if◌then◌else◌, ltb, leb, or_else, contains, ◌==◌,
}
use ai_cyber_threat_detector.Common.Dict
use ai_cyber_threat_detector.Common.Dict.{Dict}
use ai_cyber_threat_detector.Common.Int.{ℤ, pos, negsuc, below, above}
use ai_cyber_threat_detector.Detection.Event.{is_falsy, Value, null, int, text, is_text, safe_int}
use ai_cyber_threat_detector.Detection.Features.{Features}

pub record Alert : Type 0 where
  pub rule_id : String
  pub threat_class : String
  pub severity : String
  pub confidence : ℕ
  pub evidence : Dict Value
  pub mitre_tactic : String
  pub mitre_technique : String

abbrev pub or_null : Option Value → Value
or_null none = null
or_null (some v) = v

abbrev pub is_port : ℕ → ℤ → Bool
is_port n (pos p) = p == n
is_port n (negsuc p) = false

-- lo < x < hi
abbrev pub between : ℕ → ℤ → ℕ → Bool
between lo x hi = below lo x && above x hi

abbrev when : Bool → Alert → List Alert
when b a = if b then a ∷ [] else []

unfoldable pub ddos_alert : String → ℕ → Option Value → ℤ → Alert
ddos_alert severity confidence conn_state orig_pkts = record {
  rule_id = "RULE_DDOS_VOLUMETRIC";
  threat_class = "DDoS";
  severity = severity;
  confidence = confidence;
  evidence = ("conn_state", or_null conn_state) ∷ ("orig_pkts", int orig_pkts) ∷ [];
  mitre_tactic = "Impact";
  mitre_technique = "T1498";
}

-- 1. DDoS
unfoldable pub ddos_rule : Option Value → ℤ → List Alert
unfolding ddos_alert is_text
ddos_rule conn_state orig_pkts =
    if below 10000 orig_pkts
    then ddos_alert "critical" 95 conn_state orig_pkts ∷ []
    else if is_text conn_state "REJ" && not (above orig_pkts 100)
    then ddos_alert "high" 85 conn_state orig_pkts ∷ []
    else []

-- 2. beaconing
unfoldable pub c2_rule : ℤ → ℤ → ℤ → List Alert
c2_rule orig resp resp_port =
    when
      (between 50 orig 150
        && (between 50 resp 150
            && not (is_port 80 resp_port)
            && not (is_port 443 resp_port)
            && not (is_port 53 resp_port)))
      (record {
        rule_id = "RULE_C2_HEARTBEAT";
        threat_class = "C2 Beaconing";
        severity = "high";
        confidence = 85;
        evidence =
            ("orig_bytes", int orig) ∷ ("resp_bytes", int resp) ∷ ("port", int resp_port) ∷ [];
        mitre_tactic = "Command and Control";
        mitre_technique = "T1132";
      })

-- 3. DNS Tunnelling
unfoldable pub tunnelling_rule : String → Option Value → List Alert
unfolding is_text
tunnelling_rule query qtype_name = when (ltb 60 (count query) && is_text qtype_name "TXT") (record {
  rule_id = "RULE_DNS_TUNNELLING";
  threat_class = "DGA / DNS Tunnelling";
  severity = "high";
  confidence = 90;
  evidence = ("query_length", int (pos (count query))) ∷ ("qtype", text "TXT") ∷ [];
  mitre_tactic = "Command and Control";
  mitre_technique = "T1071.004";
})

-- 3. DGA fallback
unfoldable pub dga_rule : String → ℕ → ℕ → Bool → List Alert
dga_rule query label_entropy label_length is_known_infra_suffix =
    when (ltb 3800 label_entropy && (leb 16 label_length && not is_known_infra_suffix)) (record {
      rule_id = "RULE_DNS_DGA_FALLBACK";
      threat_class = "DGA / DNS Tunnelling";
      severity = "medium";
      confidence = 80;
      evidence = ("shannon_entropy", int (pos label_entropy)) ∷ ("query", text query) ∷ [];
      mitre_tactic = "Command and Control";
      mitre_technique = "T1568.002";
    })

-- 4. Encrypted-Traffic Malware
unfoldable pub ja4_rule : List String → String → List Alert
ja4_rule malicious ja4 = when (not (str_eq ja4 "") && contains ja4 malicious) (record {
  rule_id = "RULE_TLS_JA4_MALWARE";
  threat_class = "Encrypted-Traffic Malware";
  severity = "critical";
  confidence = 95;
  evidence = ("ja4_fingerprint", text ja4) ∷ ("tls_metadata", text "Anomalous Cipher Suite") ∷ [];
  mitre_tactic = "Defense Evasion";
  mitre_technique = "T1573";
})

-- 5. Reconnaissance
unfoldable pub recon_rule : Option Value → ℤ → Option Value → List Alert
unfolding is_text
recon_rule conn_state orig_pkts target_port =
    when (is_text conn_state "S0" && above orig_pkts 5) (record {
      rule_id = "RULE_RECON_PORT_SCAN";
      threat_class = "Reconnaissance";
      severity = "low";
      confidence = 75;
      evidence = ("conn_state", text "S0") ∷ ("target_port", or_null target_port) ∷ [];
      mitre_tactic = "Discovery";
      mitre_technique = "T1046";
    })

-- 6. Data Exfiltration
unfoldable pub exfil_rule : ℤ → ℤ → List Alert
exfil_rule orig_bytes resp_bytes =
    when (below 5000000 orig_bytes && above resp_bytes 10000) (record {
      rule_id = "RULE_CONN_EXFIL";
      threat_class = "Data Exfiltration";
      severity = "high";
      confidence = 85;
      evidence = ("orig_bytes", int orig_bytes) ∷ ("resp_bytes", int resp_bytes) ∷ [];
      mitre_tactic = "Exfiltration";
      mitre_technique = "T1048";
    })

-- the five rules for `conn` events, in order, over what they read
unfoldable pub conn_alerts :
    List String → Option Value → ℤ → Option Value → ℤ → ℤ → ℤ → String → List Alert
conn_alerts malicious conn_state orig_pkts target_port resp_port orig_bytes resp_bytes ja4 =
    ddos_rule conn_state orig_pkts
    ++ (c2_rule orig_bytes resp_bytes resp_port
        ++ (ja4_rule malicious ja4
            ++ (recon_rule conn_state orig_pkts target_port ++ exfil_rule orig_bytes resp_bytes)))

-- `malicious` is JA4_MALICIOUS_FINGERPRINTS; `str_of` is Python's `str` of what is no text.
module _ (malicious : List String) (str_of : Value → String) where
  unfoldable pub to_text : Option Value → String
  to_text none = ""
  to_text (some (text s)) = s
  to_text (some v) = str_of v

  -- `str(event.get("ja4", "") or "")`
  unfoldable pub ja4_text : Option Value → String
  unfolding is_falsy
  ja4_text none = ""
  ja4_text (some (text s)) = s
  ja4_text (some v) = if is_falsy v then "" else str_of v

  -- the rules for `conn` events; `none` is the TypeError of `safe_int`
  unfoldable pub conn_rules : Dict Value → Features → Option (List Alert)
  unfolding conn_alerts safe_int ja4_text
  conn_rules event features = do
    orig_pkts ← safe_int (Dict.get event "orig_pkts")
    resp_port ← safe_int (Dict.get event "id.resp_p")
    some (
        conn_alerts malicious (Dict.get event "conn_state") orig_pkts (Dict.get event "id.resp_p")
          resp_port (or_else features.orig_bytes (pos 0)) (or_else features.resp_bytes (pos 0))
          (ja4_text (Dict.get event "ja4")))

  unfoldable pub dns_rules : Dict Value → Features → List Alert
  unfolding tunnelling_rule dga_rule to_text
  dns_rules event features =
      let query = to_text (Dict.get event "query") in
      tunnelling_rule query (Dict.get event "qtype_name")
      ++ dga_rule query (or_else features.label_entropy 0) (or_else features.label_length 0)
          (or_else features.is_known_infra_suffix false)

  unfoldable pub evaluate_rules : Dict Value → Features → Option (List Alert)
  evaluate_rules event features =
      let evt_type = Dict.get event "event_type" in
      if is_text evt_type "conn"
      then conn_rules event features
      else if is_text evt_type "dns"
      then some (dns_rules event features)
      else some []
