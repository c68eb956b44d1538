-- ===== src/Training/Domains.antt =====
-- The synthetic domains that the models are trained on: inference/train_model.py and scripts/continuous_training.py. What `random`
-- gives is drawn beforehand: a word, a letter or a number for each choice, and for each `random.random()` how its tests come out.
use Prim.Native.Char.{Char, code}
use Prim.Native.String.{◌++◌}
use ai_cyber_threat_detector.Common.{
  ℕ, ◌+◌, ◌%◌, Bool, Option, none, some, List, [], ◌∷◌, String, str_eq, if◌then◌else◌, ◌==◌,
}

-- s.replace(a, b), for characters
unfoldable pub replace_char : (a b : Char) → String → String
replace_char a b String.[] = ""
replace_char a b (String.◌∷◌ c s) =
    let rest = replace_char a b s in String.◌∷◌ (if code c == code a then b else c) rest

-- "-".join(parts)
unfoldable pub hyphenated : List String → String
hyphenated [] = ""
hyphenated (p ∷ []) = p
hyphenated (p ∷ q ∷ parts) = p ++ ("-" ++ hyphenated (q ∷ parts))

-- a text and its label: 1 is malicious
abbrev pub Sample : Type 0
Sample = String × ℕ

-- the three threats of train_model.py
pub data HardThreat : Type 0 where
  dictionary : (a b c : String) → HardThreat
  homoglyph : (base : String) → HardThreat
  random_text : String → HardThreat

unfoldable pub hard_threat : HardThreat → String
unfolding replace_char
hard_threat (dictionary a b c) = a ++ ("-" ++ (b ++ ("-" ++ (c ++ ".com"))))
hard_threat (homoglyph base) =
    let dga =
      replace_char "e" "3"
        (replace_char "i" "1" (replace_char "l" "1" (replace_char "o" "0" base))) in
    if str_eq dga base then "g00gle.com" else dga
hard_threat (random_text t) = t ++ ".com"

unfoldable pub hard_benign : (prefix : Option String) → (base : String) → String
hard_benign none base = base
hard_benign (some prefix) base = prefix ++ ("." ++ base)

pub record HardDraw : Type 0 where
  pub threat : HardThreat
  pub prefix : Option String
  pub base : String

unfoldable pub hard_samples : List HardDraw → List Sample
unfolding hard_threat hard_benign
hard_samples [] = []
hard_samples (d ∷ draws) =
    (hard_threat d.threat, 1) ∷ (hard_benign d.prefix d.base, 0) ∷ hard_samples draws

-- `generate_procedural_word` from position `i` on: a consonant at even positions, a vowel at odd ones
unfoldable pub procedural_from : (i : ℕ) → List (Char × Char) → String
procedural_from i [] = ""
procedural_from i ((consonant, vowel) ∷ letters) =
    String.◌∷◌ (if i % 2 == 0 then consonant else vowel) (procedural_from (i + 1) letters)

unfoldable pub generate_procedural_word : List (Char × Char) → String
unfolding procedural_from
generate_procedural_word letters = procedural_from 0 letters

-- the four threats of continuous_training.py
pub data Threat : Type 0 where
  words : (parts : List String) → (tld : String) → Threat
  procedural_words : (parts : List (List (Char × Char))) → (tld : String) → Threat
  charset_text : (random : String) → (tld : String) → Threat
  tunnel : (payload prefix : String) → (base : List (Char × Char)) → (tld : String) → Threat
  typosquat :
      (prefix : String)
      → (base : List (Char × Char)) → (mutated : Char → Bool) → (tld : String) → Threat

unfoldable pub procedural_parts : List (List (Char × Char)) → List String
unfolding generate_procedural_word
procedural_parts [] = []
procedural_parts (p ∷ parts) = generate_procedural_word p ∷ procedural_parts parts

-- the loop over `mutations`
unfoldable pub mutate : (mutated : Char → Bool) → List (Char × Char) → String → String
unfolding replace_char
mutate mutated [] base = base
mutate mutated ((from, mut) ∷ mutations) base =
    mutate mutated mutations (if mutated from then replace_char from mut base else base)

abbrev pub mutations : List (Char × Char)
mutations = ("o", "0") ∷ ("l", "1") ∷ ("i", "1") ∷ ("e", "3") ∷ ("a", "4") ∷ ("s", "5") ∷ []

unfoldable pub threat_domain : Threat → String
unfolding hyphenated procedural_parts generate_procedural_word mutate
threat_domain (words parts tld) = hyphenated parts ++ tld
threat_domain (procedural_words parts tld) = hyphenated (procedural_parts parts) ++ tld
threat_domain (charset_text random tld) = random ++ tld
threat_domain (tunnel payload prefix base tld) =
    payload ++ ("." ++ (prefix ++ ("." ++ (generate_procedural_word base ++ tld))))
threat_domain (typosquat prefix base mutated tld) =
    prefix ++ ("-" ++ (mutate mutated mutations (generate_procedural_word base) ++ tld))

-- a benign domain: a number behind the word, a subdomain, and its version
pub record BenignDraw : Type 0 where
  pub base : List (Char × Char)
  pub digits : Option String
  pub sub : Option (String × Option String)
  pub tld : String

unfoldable pub appended : Option String → String
appended none = ""
appended (some s) = s

unfoldable pub benign_domain : BenignDraw → String
unfolding generate_procedural_word appended
benign_domain d =
    let benign_base = generate_procedural_word d.base ++ appended d.digits in
    elim d.sub [
      | none ↦ benign_base ++ d.tld
      | some (prefix, none) ↦ prefix ++ ("." ++ (benign_base ++ d.tld))
      | some (prefix, some version) ↦
          prefix ++ ("-v" ++ (version ++ ("." ++ (benign_base ++ d.tld))))
    ]

unfoldable pub dynamic_samples : List (Threat × BenignDraw) → List Sample
unfolding threat_domain benign_domain
dynamic_samples [] = []
dynamic_samples ((threat, benign) ∷ draws) =
    (threat_domain threat, 1) ∷ (benign_domain benign, 0) ∷ dynamic_samples draws
