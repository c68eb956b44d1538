-- ===== src/Detection/Counts.antt =====
-- How many alerts `evaluate_rules` of inference/rules.py raises, and when one is critical.
use ai_cyber_threat_detector.Common.{
  ◌≤◌, ◌+◌, ◌≡◌, refl, Bool, true, false, not, ◌&&◌, ◌||◌, Option, some, List, [], ◌∷◌, ◌++◌,
  String, str_eq, contains, arith, length, length-append, or_else,
}
use ai_cyber_threat_detector.Common.Dict
use ai_cyber_threat_detector.Common.Dict.{Dict}
use ai_cyber_threat_detector.Common.Int.{ℤ, pos, negsuc, below}
use ai_cyber_threat_detector.Detection.Event.{Value, is_text, safe_int}
use ai_cyber_threat_detector.Detection.Features.{Features}
use ai_cyber_threat_detector.Detection.Rules.{
  Alert, ddos_alert, ddos_rule, c2_rule, tunnelling_rule, dga_rule, ja4_rule, recon_rule,
  exfil_rule, conn_rules, dns_rules, evaluate_rules, conn_alerts, ja4_text,
}
use ai_cyber_threat_detector.Detection.Laws.{raised, evaluate_rules_cases}

-- a flood and a scan exclude one another, and so do a heartbeat and an exfiltration
ddos_or_recon :
    (s : Option Value) (n : ℤ) (t : Option Value)
    → length (ddos_rule s n) + length (recon_rule s n t) ≤ 1
unfolding ddos_rule recon_rule
ddos_or_recon s (pos n) t = ground arith
ddos_or_recon s (negsuc n) t = ground arith

c2_or_exfil : (a b p : ℤ) → length (c2_rule a b p) + length (exfil_rule a b) ≤ 1
unfolding c2_rule exfil_rule
c2_or_exfil (pos a) b p = ground arith
c2_or_exfil (negsuc a) b p = ground arith

length-ja4 : (m : List String) (j : String) → length (ja4_rule m j) ≤ 1
unfolding ja4_rule
length-ja4 m j = ground arith

module _ (m : List String) (s : Option Value) (n : ℤ) (t : Option Value) (p ob rb : ℤ)
    (j : String) where
  length-conn_alerts : length (conn_alerts m s n t p ob rb j) ≤ 3
  unfolding conn_alerts
  length-conn_alerts = omega (
    arith,
    length-append (ddos_rule s n)
        (c2_rule ob rb p ++ (ja4_rule m j ++ (recon_rule s n t ++ exfil_rule ob rb))),
    length-append (c2_rule ob rb p) (ja4_rule m j ++ (recon_rule s n t ++ exfil_rule ob rb)),
    length-append (ja4_rule m j) (recon_rule s n t ++ exfil_rule ob rb),
    length-append (recon_rule s n t) (exfil_rule ob rb),
    ddos_or_recon s n t,
    c2_or_exfil ob rb p,
    length-ja4 m j,
  )

length-dns_rules :
    (malicious : List String) (str_of : Value → String) (event : Dict Value) (features : Features)
    → length (dns_rules malicious str_of event features) ≤ 3
unfolding dns_rules tunnelling_rule dga_rule
length-dns_rules malicious str_of event features = ground arith

-- the alerts that are critical
unfoldable pub has_critical : List Alert → Bool
has_critical [] = false
has_critical (a ∷ alerts) = str_eq a.severity "critical" || has_critical alerts

has_critical-append :
    (xs ys : List Alert) → has_critical (xs ++ ys) ≡ (has_critical xs || has_critical ys)
unfolding has_critical
has_critical-append [] ys = refl
has_critical-append (a ∷ xs) ys = ground (arith, has_critical-append xs ys)

module _ (m : List String) (s : Option Value) (n : ℤ) (t : Option Value) (p ob rb : ℤ)
    (j : String) where
  calm_c2 : has_critical (c2_rule ob rb p) ≡ false
  unfolding has_critical c2_rule
  calm_c2 = ground arith

  calm_recon : has_critical (recon_rule s n t) ≡ false
  unfolding has_critical recon_rule
  calm_recon = ground arith

  calm_exfil : has_critical (exfil_rule ob rb) ≡ false
  unfolding has_critical exfil_rule
  calm_exfil = ground arith

  calm_ja4 : has_critical (ja4_rule m j) ≡ (not (str_eq j "") && contains j m)
  unfolding has_critical ja4_rule
  calm_ja4 = ground arith

  calm_ddos : has_critical (ddos_rule s n) ≡ below 10000 n
  unfolding has_critical ddos_rule ddos_alert
  calm_ddos = ground arith

  critical-conn_alerts :
      has_critical (conn_alerts m s n t p ob rb j)
      ≡ (below 10000 n || (not (str_eq j "") && contains j m))
  unfolding conn_alerts
  critical-conn_alerts =
      simp (has_critical-append, calm_c2, calm_recon, calm_exfil, calm_ja4, calm_ddos)
        (ground arith)

module _ (malicious : List String) (str_of : Value → String) (event : Dict Value)
    (features : Features) where
  -- No evaluation makes more than three alerts: a flood and a port scan exclude one another, and so do
  -- a heartbeat and an exfiltration.
  pub length-evaluate_rules :
      (alerts : List Alert)
      → evaluate_rules malicious str_of event features ≡ some alerts
      → length alerts ≤ 3
  length-evaluate_rules alerts h =
      raised (λ alerts. length alerts ≤ 3) _ h
        (evaluate_rules_cases malicious str_of event features (λ alerts. length alerts ≤ 3)
          (λ s n t p ob rb j. length-conn_alerts malicious s n t p ob rb j)
          (length-dns_rules malicious str_of event features) (omega arith))

  -- A connection whose packet count and port `safe_int` takes is evaluated, and makes a critical alert exactly if
  -- it sent more than 10000 packets or its JA4 fingerprint is, in full, one of the known malicious
  -- ones. A rejected connection alone never does.
  pub critical-evaluate_rules :
      (n port : ℤ)
      → is_text (Dict.get event "event_type") "conn" ≡ true
      → safe_int (Dict.get event "orig_pkts") ≡ some n
      → safe_int (Dict.get event "id.resp_p") ≡ some port
      → (alerts : List Alert) × (evaluate_rules malicious str_of event features ≡ some alerts)
        × (has_critical alerts ≡ (
            below 10000 n
            || (not (str_eq (ja4_text malicious str_of (Dict.get event "ja4")) "")
                && contains (ja4_text malicious str_of (Dict.get event "ja4")) malicious)))
  unfolding evaluate_rules conn_rules
  critical-evaluate_rules n port conn pkts ports =
      rw (conn, pkts, ports)
        (
          _,
          refl,
          critical-conn_alerts malicious (Dict.get event "conn_state") n
              (Dict.get event "id.resp_p") port (or_else features.orig_bytes (pos 0))
              (or_else features.resp_bytes (pos 0))
              (ja4_text malicious str_of (Dict.get event "ja4")),
        )
