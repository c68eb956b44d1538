-- ===== src/Formatters/Evidence.antt =====
-- `categorize_evidence` of shared/formatters.py.
use ai_cyber_threat_detector.Common.{
  ◌≡◌, refl, ap, ◌∙◌, Bool, true, false, ◌||◌, Option, none, some, List, [], ◌∷◌, String, str_eq,
  if◌then◌else◌, All, Bool-cases, inl, inr, eq_iff,
}
use ai_cyber_threat_detector.Common.Dict
use ai_cyber_threat_detector.Common.Dict.{Dict, get-put}
use ai_cyber_threat_detector.Common.Case.{lower}
use ai_cyber_threat_detector.Common.Text.{has_part}
use ai_cyber_threat_detector.Detection.Event.{Value, null, text}

pub record Sorted : Type 0 where
  pub observed : Dict Value
  pub inferred : Dict Value
  pub unknown : Dict Value

pub data Category : Type 0 where
  is_observed is_inferred is_unknown : Category

-- v is None or v == "" or v == "unknown"
unfoldable pub says_nothing : Value → Bool
says_nothing null = true
says_nothing (text s) = str_eq s "" || str_eq s "unknown"
says_nothing _ = false

unfoldable pub has_any : List String → String → Bool
has_any [] s = false
has_any (term ∷ terms) s = has_part term s || has_any terms s

unfoldable pub category : String → Value → Category
unfolding says_nothing has_any lower
category k v =
    if says_nothing v
    then is_unknown
    else if has_any ("score" ∷ "ml_" ∷ "entropy" ∷ "confidence" ∷ "latency" ∷ []) (lower k)
    then is_inferred
    else is_observed

unfoldable pub store : Category → String → Value → Sorted → Sorted
store is_observed k v s = record s { observed = Dict.put s.observed k v }
store is_inferred k v s = record s { inferred = Dict.put s.inferred k v }
store is_unknown k v s = record s { unknown = Dict.put s.unknown k v }

unfoldable pub categorize_from : Dict Value → Sorted → Sorted
categorize_from [] s = s
categorize_from ((k, v) ∷ evidence) s = categorize_from evidence (store (category k v) k v s)

abbrev pub nothing : Sorted
nothing = record { observed = []; inferred = []; unknown = [] }

-- an evidence that is no dict is none
unfoldable pub categorize_evidence : Option (Dict Value) → Sorted
unfolding categorize_from
categorize_evidence none = nothing
categorize_evidence (some evidence) = categorize_from evidence nothing

-- the keys of a dict are different
abbrev pub IsDict : Dict Value → Type 0
IsDict [] = Unit
IsDict ((k, v) ∷ d) = All (λ e. str_eq e.0 k ≡ false) d × IsDict d

abbrev pub part : Category → Sorted → Dict Value
part is_observed s = s.observed
part is_inferred s = s.inferred
part is_unknown s = s.unknown

abbrev pub same : Category → Category → Bool
same is_observed is_observed = true
same is_inferred is_inferred = true
same is_unknown is_unknown = true
same _ _ = false

-- what the dict of a category has at a key, beyond what it had
abbrev pub entry : Category → String → Option Value → Option Value → Option Value
entry c k none before = before
entry c k (some v) before = if same (category k v) c then some v else before

if_same : (b : Bool) (x : Option Value) → x ≡ (if b then x else x)
if_same true x = refl
if_same false x = refl

get-store :
    (b c : Category) (j k : String) (v : Value) (s : Sorted)
    → Dict.get (part c (store b j v s)) k ≡ (
        if str_eq j k
        then (if same b c then some v else Dict.get (part c s) k)
        else Dict.get (part c s) k)
unfolding store
get-store is_observed is_observed j k v s = get-put s.observed j k v
get-store is_observed is_inferred j k v s = if_same (str_eq j k) (Dict.get s.inferred k)
get-store is_observed is_unknown j k v s = if_same (str_eq j k) (Dict.get s.unknown k)
get-store is_inferred is_observed j k v s = if_same (str_eq j k) (Dict.get s.observed k)
get-store is_inferred is_inferred j k v s = get-put s.inferred j k v
get-store is_inferred is_unknown j k v s = if_same (str_eq j k) (Dict.get s.unknown k)
get-store is_unknown is_observed j k v s = if_same (str_eq j k) (Dict.get s.observed k)
get-store is_unknown is_inferred j k v s = if_same (str_eq j k) (Dict.get s.inferred k)
get-store is_unknown is_unknown j k v s = get-put s.unknown j k v

absent : (d : Dict Value) (k : String) → All (λ e. str_eq e.0 k ≡ false) d → Dict.get d k ≡ none
unfolding Dict.get
absent [] k h = refl
absent ((j, v) ∷ d) k h = rw h.0 (absent d k h.1)

categorize_from-entry :
    (d : Dict Value) (s : Sorted) (c : Category) (k : String)
    → IsDict d
    → Dict.get (part c (categorize_from d s)) k ≡ entry c k (Dict.get d k) (Dict.get (part c s) k)
unfolding categorize_from Dict.get
categorize_from-entry [] s c k h = refl
categorize_from-entry ((j, v) ∷ d) s c k h = elim (Bool-cases (str_eq j k)) [
  | inl e ↦
      let gone : Dict.get d k ≡ none = absent d k (rw ((eq_iff j k).0 e) at h.0) in
      rw e (
        categorize_from-entry d (store (category j v) j v s) c k h.1
        ∙ ap (λ o. entry c k o (Dict.get (part c (store (category j v) j v s)) k)) gone
        ∙ get-store (category j v) c j k v s
        ∙ rw e (
            ap (λ x. if same (category x v) c then some v else Dict.get (part c s) k)
              ((eq_iff j k).0 e)))
  | inr e ↦ rw e (
      categorize_from-entry d (store (category j v) j v s) c k h.1
      ∙ ap (entry c k (Dict.get d k)) (get-store (category j v) c j k v s ∙ rw e refl))
]

-- Every entry of the evidence is in exactly one of the three dicts, under its key and with its value, and they have nothing else:
-- a dict has at a key what the evidence has there if the entry is of its category, and nothing otherwise.
pub categorize_evidence-entry :
    (evidence : Dict Value) (c : Category) (k : String)
    → IsDict evidence
    → Dict.get (part c (categorize_evidence (some evidence))) k
      ≡ entry c k (Dict.get evidence k) none
unfolding categorize_evidence Dict.get
categorize_evidence-entry evidence c k h =
    categorize_from-entry evidence nothing c k h ∙ ap (entry c k (Dict.get evidence k)) (empty c)
  where
    empty : (b : Category) → Dict.get (part b nothing) k ≡ none
    empty is_observed = refl
    empty is_inferred = refl
    empty is_unknown = refl
