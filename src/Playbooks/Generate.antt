-- ===== src/Playbooks/Generate.antt =====
-- `generate_playbook` and `enrich_ip_intel` of inference/playbooks.py. `str`, ipaddress and MD5 are parameters.
use ai_cyber_threat_detector.Common.{
  ℕ, ◌/◌, ◌%◌, Bool, not, ◌||◌, Option, none, some, List, [], ◌∷◌, String, str_eq, if◌then◌else◌,
  contains, map, or_else, drop,
}
use ai_cyber_threat_detector.Common.Dict
use ai_cyber_threat_detector.Common.Dict.{Dict}
use ai_cyber_threat_detector.Common.Case.{upper}
use ai_cyber_threat_detector.Common.Text.{strip}
use ai_cyber_threat_detector.Detection.Event.{Value, is_falsy}
use ai_cyber_threat_detector.Detection.Event
use ai_cyber_threat_detector.Enrichment.Fetch.{Address}
use ai_cyber_threat_detector.Stream.Schema.{Json, null, text, object, is_truthy}
use ai_cyber_threat_detector.Playbooks.Templates.{
  Template, playbook_templates, threat_class_map, data_exfiltration,
}
use ai_cyber_threat_detector.Playbooks.Quote.{clean, quote, safe_format_string}

-- What `or` and `str` read of a value: its truth and its text. `none` is None.
abbrev pub Arg : Type 0
Arg = Option (Bool × String)

-- a or b or c
unfoldable pub first_true : List Arg → Arg
first_true [] = none
first_true (a ∷ []) = a
first_true (none ∷ b ∷ args) = first_true (b ∷ args)
first_true (some (truth, s) ∷ b ∷ args) =
    let rest = first_true (b ∷ args) in if truth then some (truth, s) else rest

unfoldable pub sanitize_input : Arg → String → String
unfolding clean
sanitize_input none default = default
sanitize_input (some (truth, s)) default = clean s

pub record Intel : Type 0 where
  pub country : String
  pub asn : String
  pub reputation : String

abbrev pub internal : Intel
internal = record { country = "Internal / RFC1918"; asn = "N/A"; reputation = "Trusted" }

abbrev pub countries : List String
countries = "RU" ∷ "CN" ∷ "IR" ∷ "KP" ∷ "BR" ∷ "RO" ∷ "US" ∷ "NL" ∷ "DE" ∷ []

abbrev pub asns : List String
asns = "AS47764" ∷ "AS4134" ∷ "AS58224" ∷ "AS174" ∷ "AS398324" ∷ "AS20473" ∷ []

-- l[n], where there is one
abbrev pub item_at : List String → ℕ → String
item_at l n = elim (drop n l) [ [] ↦ "" | ◌∷◌ s rest ↦ s ]

unfoldable pub mock_intel : ℕ → Intel
mock_intel h =
    let country = item_at countries (h % 9) in
    record {
      country = country;
      asn = item_at asns (h / 10 % 6);
      reputation =
          if contains country ("RU" ∷ "CN" ∷ "IR" ∷ "KP" ∷ "RO" ∷ [])
          then "Suspicious (Known Bulletproof Hoster)"
          else "Neutral";
    }

pub record Playbook : Type 0 where
  pub title : String
  pub threat_class : Json
  pub severity : Json
  pub containment_steps : List String
  pub recommended_firewall_rule : String
  pub forensic_checklist : List String
  pub mitre_mitigations : List String
  pub source : Intel
  pub destination : Intel

-- the values that the placeholders stand for
pub record Parameters : Type 0 where
  pub src_ip : String
  pub dst_ip : String
  pub dst_port : String
  pub domain : String
  pub ja3_hash : String

unfoldable pub normalized_key : String → String
normalized_key raw_threat_class =
    or_else (Dict.get threat_class_map (upper (strip raw_threat_class))) "DATA_EXFILTRATION"

unfoldable pub template_of : String → Template
unfolding normalized_key
template_of raw_threat_class =
    or_else (Dict.get playbook_templates (normalized_key raw_threat_class)) data_exfiltration

-- the quoted values go into the command
unfoldable pub firewall_rule_of : Template → Parameters → String
unfolding quote safe_format_string
firewall_rule_of template p = safe_format_string template.firewall_rule (
    ("src_ip", quote p.src_ip)
    ∷ ("dst_ip", quote p.dst_ip)
    ∷ ("dst_port", quote p.dst_port)
    ∷ ("domain", quote p.domain)
    ∷ ("ja3_hash", quote p.ja3_hash)
    ∷ [])

unfoldable pub checklist_item : Parameters → String → String
unfolding safe_format_string
checklist_item p line = safe_format_string line (
    ("src_ip", p.src_ip)
    ∷ ("dst_ip", p.dst_ip)
    ∷ ("domain", p.domain)
    ∷ ("ja3_hash", p.ja3_hash)
    ∷ [])

module _ (str_json : Json → String) (str_of : Value → String) (ip_address : String → Option Address)
    (md5 : String → ℕ) where
  unfoldable pub enrich_ip_intel : String → Intel
  unfolding mock_intel
  enrich_ip_intel ip = if str_eq ip "" then internal else (elim (ip_address ip) [
    | none ↦ internal
    | some addr ↦
        if addr.is_private || (addr.is_loopback || (addr.is_link_local || addr.is_unspecified))
        then internal
        else mock_intel (md5 ip)
  ])

  unfoldable pub str_text : Json → String
  str_text (text s) = s
  str_text v = str_json v

  -- alert.get(k)
  unfoldable pub alert_arg : Dict Json → String → Arg
  unfolding is_truthy str_text
  alert_arg alert k = elim (Dict.get alert k) [
    | none ↦ none
    | some null ↦ none
    | some v ↦ some (is_truthy (some v), str_text v)
  ]

  unfoldable pub value_arg : Value → Arg
  unfolding is_falsy
  value_arg Event.null = none
  value_arg (Event.text s) = some (not (str_eq s ""), s)
  value_arg v = some (not (is_falsy v), str_of v)

  -- evidence.get(k)
  unfoldable pub evidence_arg : Dict Value → String → Arg
  unfolding value_arg
  evidence_arg evidence k = elim (Dict.get evidence k) [ none ↦ none | some v ↦ value_arg v ]

  -- evidence that is no dict is left out
  unfoldable pub evidence_of : Dict Json → Dict Value
  evidence_of alert = elim (Dict.get alert "evidence") [ some (object d) ↦ d | _ ↦ [] ]

  unfoldable pub parameters : Dict Json → Parameters
  unfolding first_true sanitize_input alert_arg evidence_arg evidence_of
  parameters alert =
      let get = alert_arg alert in
      let evidence = evidence_arg (evidence_of alert) in
      record {
        src_ip =
            sanitize_input (first_true (get "source_ip" ∷ get "src_ip" ∷ get "id.orig_h" ∷ []))
              "192.168.1.100";
        dst_ip =
            sanitize_input (first_true (get "destination_ip" ∷ get "dst_ip" ∷ get "id.resp_h" ∷ []))
              "198.51.100.1";
        dst_port =
            sanitize_input
              (first_true (get "destination_port" ∷ get "dst_port" ∷ get "id.resp_p" ∷ [])) "443";
        domain =
            sanitize_input (first_true (evidence "domain" ∷ evidence "query" ∷ get "query" ∷ []))
              "malicious-c2.com";
        ja3_hash =
            sanitize_input (first_true (evidence "ja3_hash" ∷ evidence "ja4" ∷ []))
              "a0e9f5d64349fb13191bc781f81f42e1";
      }

  unfoldable pub raw_threat_class : Dict Json → Json
  unfolding is_truthy
  raw_threat_class alert =
      let threat_class = Dict.get alert "threat_class" in
      if is_truthy threat_class then or_else threat_class null else text "DATA_EXFILTRATION"

  unfoldable pub generate_playbook : Dict Json → Playbook
  unfolding template_of firewall_rule_of checklist_item enrich_ip_intel str_text parameters
      raw_threat_class
  generate_playbook alert =
      let template = template_of (str_text (raw_threat_class alert)) in
      let p = parameters alert in
      record {
        title = template.title;
        threat_class = raw_threat_class alert;
        severity = or_else (Dict.get alert "severity") (text "HIGH");
        containment_steps = template.containment_steps;
        recommended_firewall_rule = firewall_rule_of template p;
        forensic_checklist = map (checklist_item p) template.forensic_checklist;
        mitre_mitigations = template.mitre_mitigations;
        source = enrich_ip_intel p.src_ip;
        destination = enrich_ip_intel p.dst_ip;
      }
