-- ===== src/Inference/Variants.antt =====
-- Which variants of a domain `predict` of inference/models.py is sure to check.
use ai_cyber_threat_detector.Common.{ℕ, ◌<◌, List, String, length}
use ai_cyber_threat_detector.Common.Text.{split}
use ai_cyber_threat_detector.Inference.Encode.{sanitize, encode, is_dot, nonempty_parts}
use ai_cyber_threat_detector.Inference.Windows.{IsShown}
use ai_cyber_threat_detector.Inference.Predict.{Network, batch_tensor}

module _ (a c : String) where
  -- the labels of the domain
  abbrev pub labels : List String
  labels = nonempty_parts (split is_dot (sanitize a))

module _ (net : Network) (domain : String) where
  -- every one of the first 80 characters of a text is in a slice that stands around it
  abbrev pub IsSeen : String → ℕ → Type 0
  IsSeen text i = i < length (encode text) → IsShown (encode text) i (batch_tensor net domain)
