-- ===== src/Simulator/Verdicts.antt =====
-- What the rules of inference/rules.py say of the traffic of ingest/simulator.py.
use mathlib.Core.List.{Memᴰ}
use Prim.Native.String.{◌++◌, count}
use package.text.Mathlib.TextLemmas.{length-append}
use ai_cyber_threat_detector.Common.{
  ℕ, ◌≤◌, ◌<◌, ◌≡◌, ◌≢◌, refl, ap, ◌∙◌, Bool, true, false, Option, none, some, List, [], String,
  arith, Bool-cases, inl, inr, contains, str_eq, or_else,
}
use ai_cyber_threat_detector.Common.Dict
use ai_cyber_threat_detector.Common.Dict.{Dict}
use ai_cyber_threat_detector.Common.Int.{pos}
use ai_cyber_threat_detector.Common.Text.{first_label}
use ai_cyber_threat_detector.Detection.Event.{Value, text}
use ai_cyber_threat_detector.Detection.Features.{
  Features, no_features, query_features, extract_features,
}
use ai_cyber_threat_detector.Detection.Rules.{
  Alert, conn_alerts, conn_rules, dns_rules, evaluate_rules,
}
use ai_cyber_threat_detector.Simulator.Traffic.{
  Draws, Flow, Attack, dga_dns_tunnelling, reconnaissance, ddos, data_exfiltration,
  encrypted_malware, c2_beaconing, dga, port_scan, Scenario, attack_of, next_event,
  generate_conn_log, generate_dns_log, conn_event, flow_of, query_of,
}
use ai_cyber_threat_detector.Simulator.Fires.{
  HasClass, HasClass-left, ddos-HasClass, recon-HasClass, exfil-HasClass, ja4-HasClass, c2-HasClass,
  conn_alerts_quiet, ja4_missing, tunnelling-HasClass, tunnelling_quiet, dga_quiet, from_ddos,
  from_c2, from_ja4, from_recon, from_exfil,
}
use ai_cyber_threat_detector.Simulator.Drawn.{IsDrawn, normal_domains}

-- the threat class that the rules have for an attack of the mixed scenario
abbrev pub class_of : Attack → String
class_of reconnaissance = "Reconnaissance"
class_of ddos = "DDoS"
class_of data_exfiltration = "Data Exfiltration"
class_of encrypted_malware = "Encrypted-Traffic Malware"
class_of c2_beaconing = "C2 Beaconing"
class_of _ = "DGA / DNS Tunnelling"

-- what the rules have to say: the class of an attack of the mixed scenario, and nothing of all else
abbrev pub Judged : Option Attack → List Alert → Type 0
Judged none alerts = alerts ≡ []
Judged (some dga) alerts = alerts ≡ []
Judged (some port_scan) alerts = alerts ≡ []
Judged (some a) alerts = HasClass (class_of a) alerts

module _ (malicious : List String) (str_of : Value → String) (entropy : String → ℕ) where
  -- the evaluation of an event by the rules, with the features of it
  unfoldable pub evaluate : Dict Value → Option (List Alert)
  unfolding extract_features evaluate_rules
  evaluate event = elim (extract_features entropy event) [
    | none ↦ none
    | some features ↦ evaluate_rules malicious str_of event features
  ]

  conn_verdict :
      (attack : Option Attack) (d : Draws) (f : Flow)
      → evaluate (conn_event attack d f)
        ≡ some (
            conn_alerts malicious
              (some (text f.conn_state))
              (pos f.orig_pkts)
              (Dict.get (conn_event attack d f) "id.resp_p")
              (pos f.dst_port)
              (pos f.orig_bytes)
              (pos f.resp_bytes)
              "")
  unfolding evaluate Dict.get conn_event conn_rules
  conn_verdict attack d f = refl

  ja4_verdict :
      (attack : Option Attack) (d : Draws) (f : Flow)
      → evaluate (Dict.put (conn_event attack d f) "ja4" (text "t13d000000_rare_fingerprint"))
        ≡ some (
            conn_alerts malicious
              (some (text f.conn_state))
              (pos f.orig_pkts)
              (Dict.get (conn_event attack d f) "id.resp_p")
              (pos f.dst_port)
              (pos f.orig_bytes)
              (pos f.resp_bytes)
              "t13d000000_rare_fingerprint")
  unfolding evaluate Dict.get Dict.put conn_event conn_rules
  ja4_verdict attack d f = refl

  lookup_quiet :
      (d : Draws) (f : Features)
      → or_else f.label_length 0 ≤ 15
      → dns_rules malicious str_of (generate_dns_log none d) f ≡ []
  unfolding dns_rules generate_dns_log query_of Dict.get
  lookup_quiet d f h =
      rw
        (
          tunnelling_quiet d.normal_domain,
          dga_quiet d.normal_domain (or_else f.label_entropy 0) (or_else f.label_length 0)
              (or_else f.is_known_infra_suffix false) h,
        )
        refl

  -- the rules judge an event as they should
  abbrev IsJudged : Option Attack → Dict Value → Type 0
  IsJudged attack event =
      (alerts : List Alert) × (evaluate event ≡ some alerts) × Judged attack alerts

  module _ (d : Draws) (drawn : IsDrawn d) where
    calm_flow :
        (attack : Option Attack)
        → flow_of attack d ≡ flow_of none d
        → evaluate (conn_event attack d (flow_of attack d)) ≡ some []
    unfolding flow_of
    calm_flow attack e = rw e (
        conn_verdict attack d (flow_of none d)
        ∙ ap some (
            conn_alerts_quiet malicious d.orig_pkts d.dst_port d.orig_bytes d.resp_bytes _ ""
              drawn.pkts.1 drawn.port drawn.up.1 (ja4_missing malicious)))

    verdict_conn :
        (a : Attack)
        → contains "t13d000000_rare_fingerprint" malicious ≡ true
        → a ≢ dga_dns_tunnelling
        → IsJudged (some a) (generate_conn_log (some a) d)
    unfolding generate_conn_log flow_of
    verdict_conn dga_dns_tunnelling known other = absurd (other refl)
    verdict_conn reconnaissance known other = (
      _,
      conn_verdict (some reconnaissance) d (flow_of (some reconnaissance) d),
      from_recon malicious _ _ _ _ _ _ _ "Reconnaissance"
          (recon-HasClass d.scan_pkts _ drawn.scan.1),
    )
    verdict_conn ddos known other = (
      _,
      conn_verdict (some ddos) d (flow_of (some ddos) d),
      from_ddos malicious _ _ _ _ _ _ _ "DDoS" (ddos-HasClass _ d.flood_pkts drawn.flood.0),
    )
    verdict_conn data_exfiltration known other = (
      _,
      conn_verdict (some data_exfiltration) d (flow_of (some data_exfiltration) d),
      from_exfil malicious _ _ _ _ _ _ _ "Data Exfiltration"
          (exfil-HasClass d.upload_bytes d.upload_reply drawn.upload.0 drawn.reply.1),
    )
    verdict_conn encrypted_malware known other = (
      _,
      ja4_verdict (some encrypted_malware) d (flow_of (some encrypted_malware) d),
      from_ja4 malicious _ _ _ _ _ _ _ "Encrypted-Traffic Malware" (ja4-HasClass malicious known),
    )
    verdict_conn c2_beaconing known other = (
      _,
      conn_verdict (some c2_beaconing) d (flow_of (some c2_beaconing) d),
      from_c2 malicious _ _ _ _ _ _ _ "C2 Beaconing" (
          c2-HasClass d.beacon_bytes d.beacon_reply d.beacon_port drawn.beacon drawn.answer
            drawn.contact),
    )
    verdict_conn dga known other = ([], calm_flow (some dga) refl, refl)
    verdict_conn port_scan known other = ([], calm_flow (some port_scan) refl, refl)

    tunnel_long : 60 < count (query_of (some dga_dns_tunnelling) d).0
    unfolding query_of
    tunnel_long = omega (
      arith,
      length-append d.hex_a (d.hex_b ++ (d.hex_c ++ ".malicious-tunnel.com")),
      length-append d.hex_b (d.hex_c ++ ".malicious-tunnel.com"),
      length-append d.hex_c ".malicious-tunnel.com",
      drawn.a,
      drawn.b,
    )

    verdict_tunnel :
        IsJudged (some dga_dns_tunnelling) (generate_dns_log (some dga_dns_tunnelling) d)
    unfolding evaluate Dict.get generate_dns_log dns_rules
    verdict_tunnel = (
      _,
      refl,
      HasClass-left "DGA / DNS Tunnelling" _ _
          (tunnelling-HasClass (query_of (some dga_dns_tunnelling) d).0 tunnel_long),
    )

    short_label : (q : String) → Memᴰ q normal_domains → count (first_label q) ≤ 15
    unfolding first_label
    short_label q (Memᴰ.head e) = rw e (omega arith)
    short_label q (Memᴰ.tail (Memᴰ.head e)) = rw e (omega arith)
    short_label q (Memᴰ.tail (Memᴰ.tail (Memᴰ.head e))) = rw e (omega arith)
    short_label q (Memᴰ.tail (Memᴰ.tail (Memᴰ.tail m))) = elim m [ ]

    verdict_lookup : IsJudged none (generate_dns_log none d)
    unfolding evaluate Dict.get generate_dns_log query_features query_of
    verdict_lookup = elim (Bool-cases (str_eq d.normal_domain "")) [
      | inl e ↦ ([], rw e (ap some (lookup_quiet d no_features (omega arith))), refl)
      | inr e ↦ (
        [],
        rw e (
            ap some (
              lookup_quiet d (query_features entropy d.normal_domain)
                (short_label d.normal_domain drawn.domain))),
        refl,
      )
    ]

    verdict_event :
        (attack : Option Attack) (lookup : Bool)
        → contains "t13d000000_rare_fingerprint" malicious ≡ true
        → IsJudged attack (next_event attack lookup d)
    unfolding next_event generate_conn_log
    verdict_event none true known = verdict_lookup
    verdict_event none false known = ([], calm_flow none refl, refl)
    verdict_event (some dga_dns_tunnelling) lookup known = verdict_tunnel
    verdict_event (some reconnaissance) lookup known =
        verdict_conn reconnaissance known λ e. absurd (cc e)
    verdict_event (some ddos) lookup known = verdict_conn ddos known λ e. absurd (cc e)
    verdict_event (some data_exfiltration) lookup known =
        verdict_conn data_exfiltration known λ e. absurd (cc e)
    verdict_event (some encrypted_malware) lookup known =
        verdict_conn encrypted_malware known λ e. absurd (cc e)
    verdict_event (some c2_beaconing) lookup known =
        verdict_conn c2_beaconing known λ e. absurd (cc e)
    verdict_event (some dga) lookup known = verdict_conn dga known λ e. absurd (cc e)
    verdict_event (some port_scan) lookup known = verdict_conn port_scan known λ e. absurd (cc e)

  -- Every attack that the mixed scenario injects is detected under its threat class, and nothing else raises an alert: neither normal
  -- traffic, nor what the scenarios "dga" and "port_scan" label as their attacks. The list of malicious fingerprints has the simulator's.
  pub next_event-Judged :
      (scenario : Scenario) (hit lookup : Bool) (pick : Attack) (d : Draws)
      → contains "t13d000000_rare_fingerprint" malicious ≡ true
      → IsDrawn d
      → (alerts : List Alert) × (evaluate (next_event (attack_of scenario hit pick) lookup d)
          ≡ some alerts)
        × Judged (attack_of scenario hit pick) alerts
  next_event-Judged scenario hit lookup pick d known drawn =
      verdict_event d drawn (attack_of scenario hit pick) lookup known
