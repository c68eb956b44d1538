-- ===== src/Training/Dataset.antt =====
-- The rows that the networks are trained on: `generate_hard_dataset` of inference/train_model.py, `generate_dynamic_dataset` of scripts/continuous_training.py
-- and `encode_domain` of scripts/train_dl_models.py. `random.shuffle` is a parameter.
use Prim.Native.Char.{Char}
use ai_cyber_threat_detector.Common.{
  ℕ, zero, suc, ◌+◌, ◌-◌, ◌<◌, ◌≡◌, refl, ap, ◌∙◌, List, [], ◌∷◌, ◌++◌, String, if◌then◌else◌, ltb,
  ◌==◌, length, take, replicate, All, All-append, length-append, length-take, length-replicate,
  arith, ltb→lt, Bool-cases, inl, inr,
}
use ai_cyber_threat_detector.Common.Case.{lower}
use ai_cyber_threat_detector.Inference.Encode.{char_number, encode, sanitize}
use ai_cyber_threat_detector.Training.Domains.{
  Sample, HardDraw, hard_samples, Threat, BenignDraw, dynamic_samples,
}

abbrev pub max_len : ℕ
max_len = 35

-- zeros up to `max_len`, and no more than that
unfoldable pub fit : List ℕ → List ℕ
fit encoded = take max_len (
    if ltb (length encoded) max_len
    then encoded ++ replicate (max_len - length encoded) 0
    else encoded)

-- the loop over the data; `self.char_map` of inference/models.py numbers the same characters
unfoldable pub encode_row : String → List ℕ
unfolding fit lower encode
encode_row d = fit (encode (lower d))

-- `encode_domain` of scripts/train_dl_models.py, which writes a hyphen for every other character
unfoldable pub encode_domain : String → List ℕ
unfolding fit lower encode sanitize
encode_domain domain = fit (encode (sanitize (lower domain)))

-- the tensors, row by row with the labels
unfoldable pub rows : List Sample → List (List ℕ × ℕ)
unfolding encode_row
rows [] = []
rows ((d, label) ∷ dataset) = (encode_row d, label) ∷ rows dataset

module _ (shuffle : List Sample → List Sample) where
  unfoldable pub generate_hard_dataset : List HardDraw → List (List ℕ × ℕ)
  unfolding hard_samples rows
  generate_hard_dataset draws = rows (shuffle (hard_samples draws))

  unfoldable pub generate_dynamic_dataset : List (Threat × BenignDraw) → List (List ℕ × ℕ)
  unfolding dynamic_samples rows
  generate_dynamic_dataset draws = rows (shuffle (dynamic_samples draws))

-- what the embedding of 39 characters takes: 35 numbers below 39
abbrev pub IsRow : List ℕ → Type 0
IsRow row = (length row ≡ 35) × All (λ n. n < 39) row

char_number_small : (c : Char) → char_number c < 39
unfolding char_number
char_number_small c = ground arith

encode_small : (s : String) → All (λ n. n < 39) (encode s)
unfolding encode
encode_small String.[] = tt
encode_small (String.◌∷◌ c s) = (char_number_small c, encode_small s)

All-take : (P : ℕ → Type 0) (n : ℕ) (xs : List ℕ) → All P xs → All P (take n xs)
All-take P zero xs h = tt
All-take P (suc n) [] h = tt
All-take P (suc n) (x ∷ xs) h = (h.0, All-take P n xs h.1)

All-replicate : (n : ℕ) → All (λ n. n < 39) (replicate n 0)
All-replicate zero = tt
All-replicate (suc n) = (omega arith, All-replicate n)

fit-IsRow : (e : List ℕ) → All (λ n. n < 39) e → IsRow (fit e)
unfolding fit
fit-IsRow e h = elim (Bool-cases (ltb (length e) 35)) [
  | inl b ↦ rw b (
    omega (
      arith,
      length-take 35 (e ++ replicate (35 - length e) 0),
      length-append e (replicate (35 - length e) 0),
      length-replicate {A = ℕ} (35 - length e) 0,
      ltb→lt (length e) 35 b,
    ),
    All-take (λ n. n < 39) 35 (e ++ replicate (35 - length e) 0)
        (All-append (λ n. n < 39) e _ h (All-replicate (35 - length e))),
  )
  | inr b ↦ rw b (ground (arith, length-take 35 e, b), All-take (λ n. n < 39) 35 e h)
]

rows-IsRow : (dataset : List Sample) → All (λ r. IsRow r.0) (rows dataset)
unfolding rows encode_row
rows-IsRow [] = tt
rows-IsRow ((d, label) ∷ dataset) =
    (fit-IsRow (encode (lower d)) (encode_small (lower d)), rows-IsRow dataset)

-- how many have a label
abbrev pub labelled {ℓ} : {A : Type ℓ} → ℕ → List (A × ℕ) → ℕ
labelled k [] = 0
labelled k ((a, label) ∷ l) = (if label == k then 1 else 0) + labelled k l

labelled-rows : (k : ℕ) (dataset : List Sample) → labelled k (rows dataset) ≡ labelled k dataset
unfolding rows
labelled-rows k [] = refl
labelled-rows k ((d, label) ∷ dataset) =
    ap ((if label == k then 1 else 0) +◌) (labelled-rows k dataset)

-- as many malicious samples as benign ones, half of them all
abbrev pub IsBalanced : ℕ → List (List ℕ × ℕ) → Type 0
IsBalanced n l = (labelled 1 l ≡ n) × (labelled 0 l ≡ n)

hard_labels :
    (draws : List HardDraw)
    → (labelled 1 (hard_samples draws) ≡ length draws)
      × (labelled 0 (hard_samples draws) ≡ length draws)
unfolding hard_samples
hard_labels [] = (refl, refl)
hard_labels (d ∷ draws) =
    let (one, zero_) = hard_labels draws in (omega (arith, one), omega (arith, zero_))

dynamic_labels :
    (draws : List (Threat × BenignDraw))
    → (labelled 1 (dynamic_samples draws) ≡ length draws)
      × (labelled 0 (dynamic_samples draws) ≡ length draws)
unfolding dynamic_samples
dynamic_labels [] = (refl, refl)
dynamic_labels (d ∷ draws) =
    let (one, zero_) = dynamic_labels draws in (omega (arith, one), omega (arith, zero_))

-- Both datasets have rows that the embedding takes, whatever was drawn: 35 numbers, each below the 39 of its vocabulary. They
-- have as many malicious as benign rows, one of each for every draw, if the shuffle loses none.
pub rows-IsBalanced :
    (shuffle : List Sample → List Sample) (hard : List HardDraw)
    (dynamic : List (Threat × BenignDraw))
    → ((k : ℕ) (l : List Sample) → labelled k (shuffle l) ≡ labelled k l)
    → All (λ r. IsRow r.0) (generate_hard_dataset shuffle hard)
      × IsBalanced (length hard) (generate_hard_dataset shuffle hard)
      × All (λ r. IsRow r.0) (generate_dynamic_dataset shuffle dynamic)
      × IsBalanced (length dynamic) (generate_dynamic_dataset shuffle dynamic)
unfolding generate_hard_dataset generate_dynamic_dataset
rows-IsBalanced shuffle hard dynamic keeps = (
  rows-IsRow (shuffle (hard_samples hard)),
  (
    balanced 1 (hard_samples hard) ∙ (hard_labels hard).0,
    balanced 0 (hard_samples hard) ∙ (hard_labels hard).1,
  ),
  rows-IsRow (shuffle (dynamic_samples dynamic)),
  (
    balanced 1 (dynamic_samples dynamic) ∙ (dynamic_labels dynamic).0,
    balanced 0 (dynamic_samples dynamic) ∙ (dynamic_labels dynamic).1,
  ),
)
  where
    balanced : (k : ℕ) (l : List Sample) → labelled k (rows (shuffle l)) ≡ labelled k l
    balanced k l = labelled-rows k (shuffle l) ∙ keeps k l
