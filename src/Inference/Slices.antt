-- ===== src/Inference/Slices.antt =====
-- The slices of 35 characters that `predict` of inference/models.py shows the network.
use ai_cyber_threat_detector.Common.{
  ℕ, zero, suc, ◌+◌, ◌-◌, ◌/◌, ◌%◌, max, not, ◌&&◌, List, [], ◌∷◌, ◌++◌, String, if◌then◌else◌, leb,
  ltb, ◌==◌, length, take, drop, replicate, is_empty,
}
use ai_cyber_threat_detector.Inference.Encode.{encode}

-- the loop over `range(0, len(encoded) - 35 + 1, 15)`, left when the budget is used up
unfoldable pub windows : (budget rounds start : ℕ) → List ℕ → List (List ℕ)
windows budget zero start encoded = []
windows budget (suc rounds) start encoded =
    let rest = windows (budget - 1) rounds (start + 15) encoded in
    take 35 (drop start encoded) ∷ (if leb budget 1 then [] else rest)

-- the number of starts in that range
abbrev pub starts : List ℕ → ℕ
starts encoded = (length encoded - 35) / 15 + 1

unfoldable pub domain_slices : ℕ → List ℕ → List (List ℕ)
unfolding windows
domain_slices budget encoded =
    let slices = windows budget (starts encoded) 0 encoded in
    if ltb 35 (length encoded)
    then (if ltb (length slices) budget && not ((length encoded - 35) % 15 == 0)
        then slices ++ drop (length encoded - 35) encoded ∷ []
        else slices)
    else (encoded ++ replicate (35 - length encoded) 0) ∷ []

-- an empty variant is skipped
unfoldable pub slices_of : ℕ → String → List (List ℕ)
unfolding domain_slices
slices_of budget d =
    let encoded = encode d in
    if is_empty encoded then [] else take budget (domain_slices budget encoded)

unfoldable pub all_slices_of : ℕ → List String → List (List ℕ)
all_slices_of budget [] = []
all_slices_of budget (d ∷ domains) = slices_of budget d ++ all_slices_of budget domains

-- the first eight variants share 32 slices
abbrev pub budget_per_domain : List String → ℕ
budget_per_domain domains_subset = max 1 (32 / length domains_subset)

unfoldable pub all_slices : List String → List (List ℕ)
unfolding all_slices_of
all_slices domains_to_check =
    let domains_subset = take 8 domains_to_check in
    take 32 (all_slices_of (budget_per_domain domains_subset) domains_subset)
