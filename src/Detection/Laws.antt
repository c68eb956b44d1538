-- ===== src/Detection/Laws.antt =====
-- What the rules promise of every event.
use ai_cyber_threat_detector.Common.{
  ◌≡◌, inl, inr, refl, false, not, ◌&&◌, ◌||◌, Option, none, some, List, [], ◌++◌, String, All,
  All-append, or_else, Bool-cases, Option-cases, is_some,
}
use ai_cyber_threat_detector.Common.Dict
use ai_cyber_threat_detector.Common.Dict.{Dict}
use ai_cyber_threat_detector.Common.Int.{ℤ, pos}
use ai_cyber_threat_detector.Detection.Event.{Value, is_text, safe_int}
use ai_cyber_threat_detector.Detection.Features.{Features}
use ai_cyber_threat_detector.Detection.Rules.{
  Alert, ddos_rule, c2_rule, tunnelling_rule, dga_rule, ja4_rule, recon_rule, exfil_rule,
  conn_rules, dns_rules, evaluate_rules, conn_alerts, ja4_text, to_text,
}
use ai_cyber_threat_detector.Detection.Reportable.{
  IsReportable, ddos-IsReportable, c2-IsReportable, tunnelling-IsReportable, dga-IsReportable,
  ja4-IsReportable, recon-IsReportable, exfil-IsReportable,
}

-- what holds of the alerts of an evaluation that raised nothing
abbrev pub Raises : (List Alert → Type 0) → Option (List Alert) → Type 0
Raises P none = Unit
Raises P (some alerts) = P alerts

pub raised :
    (P : List Alert → Type 0) {alerts : List Alert} (o : Option (List Alert))
    → o ≡ some alerts
    → Raises P o
    → P alerts
raised P o h k = rw h at k

-- A property of what the rules return holds if it does for each kind of event.
pub evaluate_rules_cases :
    (malicious : List String) (str_of : Value → String) (event : Dict Value) (features : Features)
    (P : List Alert → Type 0)
    → ((s : Option Value) (n : ℤ) (t : Option Value) (p ob rb : ℤ) (j : String)
        → P (conn_alerts malicious s n t p ob rb j))
    → P (dns_rules malicious str_of event features)
    → P []
    → Raises P (evaluate_rules malicious str_of event features)
unfolding evaluate_rules conn_rules
evaluate_rules_cases malicious str_of event features P conn dns other =
    elim (Bool-cases (is_text (Dict.get event "event_type") "conn")) [
      | inl e ↦ elim (Option-cases (safe_int (Dict.get event "orig_pkts"))) [
        | inl f ↦ rw (e, f) tt
        | inr (n, f) ↦ elim (Option-cases (safe_int (Dict.get event "id.resp_p"))) [
          | inl g ↦ rw (e, f, g) tt
          | inr (p, g) ↦
              rw (e, f, g)
                (conn (Dict.get event "conn_state") n (Dict.get event "id.resp_p") p
                  (or_else features.orig_bytes (pos 0)) (or_else features.resp_bytes (pos 0))
                  (ja4_text malicious str_of (Dict.get event "ja4")))
        ]
      ]
      | inr e ↦ elim (Bool-cases (is_text (Dict.get event "event_type") "dns")) [
        | inl f ↦ rw (e, f) dns
        | inr f ↦ rw (e, f) other
      ]
    ]

module _ (m : List String) (s : Option Value) (n : ℤ) (t : Option Value) (p ob rb : ℤ)
    (j : String) where
  conn_alerts-IsReportable : All IsReportable (conn_alerts m s n t p ob rb j)
  unfolding conn_alerts
  conn_alerts-IsReportable =
      let last =
        All-append IsReportable (recon_rule s n t) (exfil_rule ob rb) (recon-IsReportable s n t)
          (exfil-IsReportable ob rb) in
      let third =
        All-append IsReportable (ja4_rule m j) (recon_rule s n t ++ exfil_rule ob rb)
          (ja4-IsReportable m j) last in
      let second =
        All-append IsReportable (c2_rule ob rb p)
          (ja4_rule m j ++ (recon_rule s n t ++ exfil_rule ob rb)) (c2-IsReportable ob rb p)
          third in
      All-append IsReportable (ddos_rule s n)
        (c2_rule ob rb p ++ (ja4_rule m j ++ (recon_rule s n t ++ exfil_rule ob rb)))
        (ddos-IsReportable s n) second

module _ (malicious : List String) (str_of : Value → String) (event : Dict Value)
    (features : Features) where
  dns-IsReportable : All IsReportable (dns_rules malicious str_of event features)
  unfolding dns_rules
  dns-IsReportable =
      let q = to_text malicious str_of (Dict.get event "query") in
      let t = Dict.get event "qtype_name" in
      let e = or_else features.label_entropy 0 in
      let l = or_else features.label_length 0 in
      let k = or_else features.is_known_infra_suffix false in
      All-append IsReportable (tunnelling_rule q t) (dga_rule q e l k) (tunnelling-IsReportable q t)
        (dga-IsReportable q e l k)

  -- Every alert of an evaluation has a severity that the alert schema admits, one of the six threat classes, and
  -- a confidence from 0.75 to 1.
  pub evaluate_rules-IsReportable :
      (alerts : List Alert)
      → evaluate_rules malicious str_of event features ≡ some alerts
      → All IsReportable alerts
  evaluate_rules-IsReportable alerts h = raised (All IsReportable) _ h (
      evaluate_rules_cases malicious str_of event features (All IsReportable)
        (λ s n t p ob rb j. conn_alerts-IsReportable malicious s n t p ob rb j) dns-IsReportable tt)

  -- The evaluation returns alerts, rather than raising, exactly if the event is no connection, or both its packet
  -- count and its port are values that `safe_int` takes.
  pub is_some-evaluate_rules : is_some (evaluate_rules malicious str_of event features) ≡ (
      not (is_text (Dict.get event "event_type") "conn")
      || (is_some (safe_int (Dict.get event "orig_pkts"))
          && is_some (safe_int (Dict.get event "id.resp_p"))))
  unfolding evaluate_rules conn_rules
  is_some-evaluate_rules = elim (Bool-cases (is_text (Dict.get event "event_type") "conn")) [
    | inl e ↦ elim (Option-cases (safe_int (Dict.get event "orig_pkts"))) [
      | inl f ↦ rw (e, f) refl
      | inr (n, f) ↦ elim (Option-cases (safe_int (Dict.get event "id.resp_p"))) [
        | inl g ↦ rw (e, f, g) refl
        | inr (p, g) ↦ rw (e, f, g) refl
      ]
    ]
    | inr e ↦ elim (Bool-cases (is_text (Dict.get event "event_type") "dns")) [
      | inl f ↦ rw (e, f) refl
      | inr f ↦ rw (e, f) refl
    ]
  ]
