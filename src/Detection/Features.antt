-- ===== src/Detection/Features.antt =====
-- `extract_dns_features`, `extract_flow_features` and `extract_features` of inference/features.py. Duration, the
-- digit ratio and the rate, which no rule reads, are left out. Entropy is a parameter, in thousandths rounded up: the
-- source computes it by floating-point logarithms.
use Prim.Native.String.{count}
use ai_cyber_threat_detector.Common.{
  ◌>>=◌, ℕ, Bool, Option, none, some, List, [], ◌∷◌, String, str_eq, if◌then◌else◌, ◌==◌,
}
use ai_cyber_threat_detector.Common.Dict
use ai_cyber_threat_detector.Common.Dict.{Dict}
use ai_cyber_threat_detector.Common.Int.{ℤ}
use ai_cyber_threat_detector.Common.Case.{lower}
use ai_cyber_threat_detector.Common.Text.{rstrip_by, first_label, ends_with_any}
use ai_cyber_threat_detector.Detection.Event.{is_falsy, Value, text, is_text, safe_int}
use Prim.Native.Char.{code}

-- The dict of features; `none` is a missing key.
pub record Features : Type 0 where
  pub domain_length : Option ℕ
  pub shannon_entropy : Option ℕ
  pub label_entropy : Option ℕ
  pub label_length : Option ℕ
  pub is_known_infra_suffix : Option Bool
  pub orig_bytes : Option ℤ
  pub resp_bytes : Option ℤ

abbrev pub no_features : Features
no_features = record {
  domain_length = none;
  shannon_entropy = none;
  label_entropy = none;
  label_length = none;
  is_known_infra_suffix = none;
  orig_bytes = none;
  resp_bytes = none;
}

abbrev pub known_infra_suffixes : List String
known_infra_suffixes =
    "cloudfront.net" ∷ "amazonaws.com" ∷ "akamaized.net" ∷ "akamaiedge.net" ∷ "akamai.net"
    ∷ "fastly.net" ∷ "sharepoint.com" ∷ "gravatar.com" ∷ "googleusercontent.com" ∷ "googleapis.com"
    ∷ "windows.net" ∷ "azureedge.net" ∷ "cloudflare.com" ∷ "github.io" ∷ "githubusercontent.com"
    ∷ []

module _ (entropy : String → ℕ) where
  unfoldable pub query_features : String → Features
  unfolding lower rstrip_by first_label ends_with_any
  query_features query =
      let label = first_label query in
      record no_features {
        domain_length = some (count query);
        shannon_entropy = some (entropy query);
        label_entropy = some (entropy label);
        label_length = some (count label);
        is_known_infra_suffix =
            some
              (ends_with_any known_infra_suffixes (rstrip_by (λ c. code c == b'.') (lower query)));
      }

  -- an empty query has no features; `none` is the exception that any other value raises which is no text
  unfoldable pub extract_dns_features : Dict Value → Option Features
  unfolding query_features is_falsy
  extract_dns_features event = elim (Dict.get event "query") [
    | none ↦ some no_features
    | some (text query) ↦ some (if str_eq query "" then no_features else query_features query)
    | some v ↦ if is_falsy v then some no_features else none
  ]

  unfoldable pub extract_flow_features : Dict Value → Option Features
  unfolding safe_int
  extract_flow_features event = do
    orig_bytes ← safe_int (Dict.get event "orig_bytes")
    resp_bytes ← safe_int (Dict.get event "resp_bytes")
    some (record no_features { orig_bytes = some orig_bytes; resp_bytes = some resp_bytes })

  unfoldable pub extract_features : Dict Value → Option Features
  unfolding extract_dns_features extract_flow_features is_text
  extract_features event =
      let evt_type = Dict.get event "event_type" in
      if is_text evt_type "dns"
      then extract_dns_features event
      else if is_text evt_type "conn"
      then extract_flow_features event
      else some no_features
