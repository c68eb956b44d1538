-- ===== src/Enrichment/Evidence.antt =====
-- `enrich` of inference/enrichment.py: which address is looked up, and what the answer adds to the evidence.
use Prim.Native.String.{◌++◌}
use ai_cyber_threat_detector.Common.{
  ℕ, ◌≡◌, ◌≤◌, ◌⊎◌, arith, refl, ◌∙◌, Bool, false, ◌||◌, not, Option, none, some, [], ◌∷◌, String,
  str_eq, if◌then◌else◌, ltb, Bool-cases, inl, inr,
}
use ai_cyber_threat_detector.Common.Dict
use ai_cyber_threat_detector.Common.Dict.{Dict, get-put}
use ai_cyber_threat_detector.Common.Text.{strip}
use ai_cyber_threat_detector.Enrichment.Fetch.{Address}

-- what `enrich` reads of the intelligence
pub record Intel : Type 0 where
  pub city : Option String
  pub country_name : Option String
  pub country_code : Option String
  pub org : Option String
  pub isp : Option String
  pub hosting : Bool
  pub error : Bool

-- A text that is present and not empty, or the next one.
unfoldable pub or_next : Option String → String → String
or_next none d = d
or_next (some s) d = if str_eq s "" then d else s

unfoldable pub add_hosting : Intel → Dict String → Dict String
add_hosting intel evidence =
    if intel.hosting
    then Dict.put evidence "Threat Intel" "WARNING: Data Center / Bulletproof Hosting Detected"
    else evidence

-- the three entries under `if intel_data and not intel_data.get("error")`
unfoldable pub add_intel : Option Intel → Dict String → Dict String
add_intel none evidence = evidence
add_intel (some intel) evidence =
    let city = or_next intel.city "Unknown" in
    let country = or_next intel.country_name (or_next intel.country_code "Unknown") in
    let isp = or_next intel.org (or_next intel.isp "Unknown") in
    if intel.error
    then evidence
    else add_hosting intel
        (Dict.put (Dict.put evidence "Live GeoIP" (city ++ (", " ++ country))) "Live ISP" isp)

-- what `json.loads` makes of a text
pub data Parsed : Type 0 where
  object : Dict String → Parsed
  no_object invalid : Parsed

-- The alert's evidence, with values by their texts: a dict, a text with its length and what it parses to, or
-- something else. A missing one is an empty dict.
pub data Evidence : Type 0 where
  dict : Dict String → Evidence
  text : (length : ℕ) → Parsed → Evidence
  other : Evidence

-- `none` is JSON that is no dict, to which nothing can be added by key
unfoldable pub read_evidence : Evidence → Option (Dict String)
read_evidence (dict d) = some d
read_evidence (text length p) =
    if ltb 65536 length
    then some (("warning", "Evidence string exceeds 64KB maximum limit") ∷ [])
    else (elim p [ object d ↦ some d | no_object ↦ none | invalid ↦ some [] ])
read_evidence other = some []

-- `ip_address` is Python's, with `none` for its ValueError
unfoldable pub ip_to_check :
    (String → Option Address) → (source_ip destination_ip : String) → String
ip_to_check ip_address source_ip destination_ip =
    let target = if str_eq destination_ip "" then source_ip else destination_ip in
    elim (ip_address (strip source_ip)) [
      | none ↦ target
      | some addr ↦ if addr.is_private || addr.is_loopback then target else source_ip
    ]

-- the evidence after `enrich`: a dict, JSON that is no dict and was left alone, or the TypeError of adding to it
pub data Enriched : Type 0 where
  enriched : Dict String → Enriched
  left_alone raised : Enriched

unfoldable pub adds : Option Intel → Bool
adds none = false
adds (some intel) = not intel.error

-- `intel` is what `_fetch_intel` returned
unfoldable pub enrich : Option Intel → Evidence → Enriched
enrich intel evidence = elim (read_evidence evidence) [
  | none ↦ if adds intel then raised else left_alone
  | some d ↦ enriched (add_intel intel d)
]

get-put_other :
    (d : Dict String) (k j v : String)
    → str_eq k j ≡ false
    → Dict.get (Dict.put d k v) j ≡ Dict.get d j
get-put_other d k j v h = get-put d k j v ∙ simp h

get-add_hosting :
    (intel : Intel) (d : Dict String) (j : String)
    → str_eq "Threat Intel" j ≡ false
    → Dict.get (add_hosting intel d) j ≡ Dict.get d j
unfolding add_hosting
get-add_hosting intel d j c = elim (Bool-cases intel.hosting) [
  | inl e ↦ simp e (get-put_other d "Threat Intel" j _ c)
  | inr e ↦ simp e
]

get-add_intel :
    (intel : Option Intel) (d : Dict String) (j : String)
    → str_eq "Live GeoIP" j ≡ false
    → str_eq "Live ISP" j ≡ false
    → str_eq "Threat Intel" j ≡ false
    → Dict.get (add_intel intel d) j ≡ Dict.get d j
unfolding add_intel
get-add_intel none d j a b c = refl
get-add_intel (some intel) d j a b c = elim (Bool-cases intel.error) [
  | inl e ↦ simp e
  | inr e ↦ simp e (
      get-add_hosting intel _ j c
      ∙ get-put_other _ "Live ISP" j _ b
      ∙ get-put_other d "Live GeoIP" j _ a)
]

-- evidence that is a dict, or a text of at most 64 KB of the JSON of one
abbrev pub Carries : Evidence → Dict String → Type 0
Carries evidence d =
    (evidence ≡ dict d) ⊎ ((length : ℕ) × (length ≤ 65536) × (evidence ≡ text length (object d)))

read_evidence-Carries :
    (evidence : Evidence) (d : Dict String) → Carries evidence d → read_evidence evidence ≡ some d
unfolding read_evidence
read_evidence-Carries evidence d (inl e) = rw e refl
read_evidence-Carries evidence d (inr (length, short, e)) =
    let within : ltb 65536 length ≡ false = ground (arith, short) in
    rw (e, read_evidence, within) refl

-- An enrichment keeps evidence that is a dict, or a text of at most 65536 characters whose JSON is one: whatever the
-- lookup answers, the evidence is a dict afterwards, with the same entry under every key but the three
-- that the enrichment writes.
pub enrich_keeps :
    (intel : Option Intel) (evidence : Evidence) (d : Dict String) (j : String)
    → Carries evidence d
    → str_eq "Live GeoIP" j ≡ false
    → str_eq "Live ISP" j ≡ false
    → str_eq "Threat Intel" j ≡ false
    → (d' : Dict String) × (enrich intel evidence ≡ enriched d') × (Dict.get d' j ≡ Dict.get d j)
unfolding enrich
enrich_keeps intel evidence d j h a b c = (
  add_intel intel d,
  rw (read_evidence-Carries evidence d h, enrich) refl,
  get-add_intel intel d j a b c,
)
