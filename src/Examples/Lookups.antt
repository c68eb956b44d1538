-- ===== src/Examples/Lookups.antt =====
-- Lookups of a public address and of the metadata service.
use ai_cyber_threat_detector.Common.{
  ◌≡◌, ◌⊎◌, inl, refl, true, false, Option, none, some, [], ◌∷◌, String, str_eq, if◌then◌else◌,
}
use ai_cyber_threat_detector.Common.Dict
use ai_cyber_threat_detector.Common.Text.{strip}
use ai_cyber_threat_detector.Enrichment.Cache.{Cache, get_cached}
use ai_cyber_threat_detector.Enrichment.Fetch.{Address, Response, is_refused, fetch_intel}
use ai_cyber_threat_detector.Enrichment.Guard.{IsPublic, asked-fetch_intel}
use ai_cyber_threat_detector.Common.Dict.{Dict}
use ai_cyber_threat_detector.Enrichment.Evidence.{Intel, dict, enriched, enrich, enrich_keeps}

abbrev dns_host : Address
dns_host = record {
  normal = "8.8.8.8";
  version = 4;
  is_global = true;
  is_private = false;
  is_loopback = false;
  is_link_local = false;
  is_multicast = false;
  is_reserved = false;
  is_unspecified = false;
  is_shared = false;
  is_metadata = false;
}

abbrev metadata_host : Address
metadata_host = record dns_host {
  normal = "169.254.169.254";
  is_global = false;
  is_link_local = true;
  is_metadata = true;
}

abbrev ip_address : String → Option Address
ip_address s =
    if str_eq s "8.8.8.8"
    then some dns_host
    else if str_eq s "169.254.169.254"
    then some metadata_host
    else none

abbrev http_get : String → Option (Response String)
http_get s = some (record { size = 500; body = some ("intel", false, some s) })

abbrev fallback : String → String
fallback s = "local"

abbrev full : Cache String
full = ("1.1.1.1", ("old", 900)) ∷ ("9.9.9.9", ("old", 900)) ∷ []

asked-fetch_intel_example :
    ((fetch_intel 3600 2 ip_address http_get fallback 100 "8.8.8.8" full).asked ≡ [])
    ⊎ ((addr : Address) × (ip_address (strip "8.8.8.8") ≡ some addr)
        × IsPublic addr
        × ((fetch_intel 3600 2 ip_address http_get fallback 100 "8.8.8.8" full).asked
            ≡ addr.normal ∷ []))
asked-fetch_intel_example = asked-fetch_intel 3600 2 ip_address http_get fallback 100 "8.8.8.8" full

metadata_refused :
    (fetch_intel 3600 2 ip_address http_get fallback 100 " 169.254.169.254" full).asked ≡ []
unfolding fetch_intel get_cached Dict.get strip is_refused
metadata_refused = refl

abbrev intel : Intel
intel = record {
  city = some "Paris";
  country_name = none;
  country_code = some "FR";
  org = some "";
  isp = none;
  hosting = true;
  error = false;
}

enrich_keeps_example :
    (d' : Dict String) × (enrich (some intel) (dict (("query", "x.com") ∷ [])) ≡ enriched d')
    × (Dict.get d' "query" ≡ Dict.get (("query", "x.com") ∷ []) "query")
enrich_keeps_example =
    enrich_keeps (some intel) (dict (("query", "x.com") ∷ [])) (("query", "x.com") ∷ []) "query"
      (inl refl) refl refl refl
