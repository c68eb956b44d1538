-- ===== src/Inference/Predict.antt =====
-- `DeepLearningEngine.predict` of inference/models.py. Probabilities are in hundredths, rounded up.
use Prim.Native.String.{count}
use ai_cyber_threat_detector.Common.{
  ℕ, Bool, false, ◌||◌, Option, none, some, List, String, str_eq, if◌then◌else◌, ltb, is_empty,
  or_else,
}
use ai_cyber_threat_detector.Common.Text.{rstrip_by}
use ai_cyber_threat_detector.Inference.Encode.{sanitize, is_dot, domains_to_check}
use ai_cyber_threat_detector.Inference.Slices.{all_slices}

-- The libraries: `normalize` is NFKC, `to_lower` is `str.lower`, `idna` is the encoding of a domain in lower case (`none` if it
-- refuses), `forward` the largest output of the network for a batch, `none` if it raises.
pub record Network : Type 0 where
  pub normalize : String → String
  pub to_lower : String → String
  pub idna : String → Option String
  pub forward : List (List ℕ) → Option ℕ

-- the flag and the probability
abbrev pub Verdict : Type 0
Verdict = Bool × ℕ

abbrev pub no_verdict : Verdict
no_verdict = (false, 0)

module _ (net : Network) where
  unfoldable pub clean_domain : String → String
  clean_domain domain = net.to_lower (rstrip_by is_dot (net.normalize domain))

  unfoldable pub ascii_domain : String → String
  ascii_domain domain = or_else (net.idna (clean_domain domain)) (clean_domain domain)

  unfoldable pub batch_tensor : String → List (List ℕ)
  batch_tensor domain = all_slices (domains_to_check (ascii_domain domain) (clean_domain domain))

  unfoldable pub judge : List (List ℕ) → Verdict
  judge slices = if is_empty slices then no_verdict else (elim (net.forward slices) [
    | none ↦ no_verdict
    | some max_prob ↦ (ltb 85 max_prob, max_prob)
  ])

  -- `early` and `late` say that the deadline has passed at its two tests
  unfoldable pub predict : (early late : Bool) → String → Verdict
  predict early late domain =
      if str_eq domain "" || (ltb 512 (count domain) || early)
      then no_verdict
      else if str_eq (sanitize (ascii_domain domain)) "" || late
      then no_verdict
      else judge (batch_tensor domain)
