-- ===== src/Api/Stats.antt =====
-- `get_stats` of api/main.py. What GROUP BY makes of the table is the database's: a parameter.
use ai_cyber_threat_detector.Common.{
  ℕ, ◌+◌, ◌≤◌, ◌≡◌, ◌≢◌, refl, ◌∙◌, Option, none, some, List, [], ◌∷◌, String, str_eq, length,
  if◌then◌else◌, or_else, arith, All, Bool-cases, inl, inr, eq_iff,
}
use ai_cyber_threat_detector.Common.Dict
use ai_cyber_threat_detector.Common.Dict.{Dict, get-put, get-remove, tally, at_key, tally-put}
use ai_cyber_threat_detector.Common.Case.{lower}
use ai_cyber_threat_detector.Api.Alerts.{Alert}

-- a severity, and how many rows have it
abbrev pub Group : Type 0
Group = Option String × ℕ

pub record Stats : Type 0 where
  pub total_alerts : ℕ
  pub critical : ℕ
  pub high : ℕ
  pub medium : ℕ
  pub low : ℕ

unfoldable pub severity_key : Option String → String
unfolding lower
severity_key none = "unknown"
severity_key (some sev) = if str_eq sev "" then "unknown" else lower sev

-- the dict comprehension: a later group of the same key takes the place of an earlier one
unfoldable pub severity_map : List Group → Dict ℕ → Dict ℕ
unfolding severity_key
severity_map [] d = d
severity_map ((sev, cnt) ∷ counts) d = severity_map counts (Dict.put d (severity_key sev) cnt)

abbrev pub value : ℕ → ℕ
value n = n

unfoldable pub get_stats : List Group → Stats
unfolding severity_map
get_stats counts =
    let m = severity_map counts [] in
    record {
      total_alerts = tally value m;
      critical = or_else (Dict.get m "critical") 0;
      high = or_else (Dict.get m "high") 0;
      medium = or_else (Dict.get m "medium") 0;
      low = or_else (Dict.get m "low") 0;
    }

abbrev pub group_sum : List Group → ℕ
group_sum [] = 0
group_sum ((sev, cnt) ∷ counts) = cnt + group_sum counts

-- no two groups have the same key, as when all severities are of one case
abbrev pub IsSeparate : List Group → Type 0
IsSeparate [] = Unit
IsSeparate ((sev, cnt) ∷ counts) =
    All (λ g. severity_key g.0 ≢ severity_key sev) counts × IsSeparate counts

severity_map-le :
    (counts : List Group) (d : Dict ℕ)
    → tally value (severity_map counts d) ≤ tally value d + group_sum counts
unfolding severity_map
severity_map-le [] d = omega arith
severity_map-le ((sev, cnt) ∷ counts) d = omega (
  arith,
  severity_map-le counts (Dict.put d (severity_key sev) cnt),
  tally-put value d (severity_key sev) cnt,
)

All-put :
    (counts : List Group) (d : Dict ℕ) (k : String) (n : ℕ)
    → All (λ g. severity_key g.0 ≢ k) counts
    → All (λ g. Dict.get d (severity_key g.0) ≡ none) counts
    → All (λ g. Dict.get (Dict.put d k n) (severity_key g.0) ≡ none) counts
All-put [] d k n h f = tt
All-put ((sev, cnt) ∷ counts) d k n h f = (
  ground (arith, get-put d k (severity_key sev) n, eq_iff k (severity_key sev), h.0, f.0),
  All-put counts d k n h.1 f.1,
)

severity_map_sum :
    (counts : List Group) (d : Dict ℕ)
    → IsSeparate counts
    → All (λ g. Dict.get d (severity_key g.0) ≡ none) counts
    → tally value (severity_map counts d) ≡ tally value d + group_sum counts
unfolding severity_map
severity_map_sum [] d p f = omega arith
severity_map_sum ((sev, cnt) ∷ counts) d p f =
    let absent : at_key value (Dict.get d (severity_key sev)) ≡ 0 = rw f.0 refl in
    omega (
      arith,
      severity_map_sum counts (Dict.put d (severity_key sev) cnt) p.1
          (All-put counts d (severity_key sev) cnt p.0 f.1),
      tally-put value d (severity_key sev) cnt,
      absent,
    )

tally-remove :
    (d : Dict ℕ) (k : String)
    → or_else (Dict.get d k) 0 + tally value (Dict.remove d k) ≤ tally value d
unfolding Dict.get Dict.remove
tally-remove [] k = omega arith
tally-remove ((j, n) ∷ d) k = elim (Bool-cases (str_eq j k)) [
  | inl e ↦ rw e (omega (arith, tally-remove d k))
  | inr e ↦ rw e (omega (arith, tally-remove d k))
]

All-empty : (counts : List Group) → All (λ g. Dict.get {V = ℕ} [] (severity_key g.0) ≡ none) counts
unfolding Dict.get
All-empty [] = tt
All-empty (g ∷ counts) = (refl, All-empty counts)

four :
    (d : Dict ℕ)
    → or_else (Dict.get d "critical") 0
        + or_else (Dict.get d "high") 0
        + or_else (Dict.get d "medium") 0
        + or_else (Dict.get d "low") 0
      ≤ tally value d
four d =
    let a = Dict.remove d "critical" in
    let b = Dict.remove a "high" in
    let c = Dict.remove b "medium" in
    let high : Dict.get a "high" ≡ Dict.get d "high" = get-remove d "critical" "high" in
    let medium : Dict.get b "medium" ≡ Dict.get d "medium" =
      get-remove a "high" "medium" ∙ get-remove d "critical" "medium" in
    let low : Dict.get c "low" ≡ Dict.get d "low" =
      get-remove b "medium" "low" ∙ get-remove a "high" "low" ∙ get-remove d "critical" "low" in
    rw (← high, ← medium, ← low)
      (omega (
        arith,
        tally-remove d "critical",
        tally-remove a "high",
        tally-remove b "medium",
        tally-remove c "low",
      ))

abbrev pub named_sum : Stats → ℕ
named_sum s = s.critical + s.high + s.medium + s.low

-- `counts` splits the rows by their severity
pub record IsGrouping (table : List Alert) (counts : List Group) : Type 0 where
  pub splits : group_sum counts ≡ length table

-- The total never exceeds the number of alerts, and the four severities never exceed the total. The total is the number of
-- alerts whenever no two severities of the table fall together as keys, which upper and lower case do.
pub get_stats-total :
    (table : List Alert) (counts : List Group)
    → IsGrouping table counts
    → ((get_stats counts).total_alerts ≤ length table)
      × (named_sum (get_stats counts) ≤ (get_stats counts).total_alerts)
      × (IsSeparate counts → (get_stats counts).total_alerts ≡ length table)
unfolding get_stats
get_stats-total table counts g = (
  omega (arith, g.splits, severity_map-le counts []),
  four (severity_map counts []),
  λ p. omega (arith, g.splits, severity_map_sum counts [] p (All-empty counts)),
)
