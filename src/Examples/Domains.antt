-- ===== src/Examples/Domains.antt =====
-- A domain through the slices of inference/models.py.
use mathlib.Core.List.{Memᴰ}
use ai_cyber_threat_detector.Common.{refl, some, List, [], ◌∷◌, String, arith}
use ai_cyber_threat_detector.Inference.Encode.{encode}
use ai_cyber_threat_detector.Inference.Slices.{all_slices}
use ai_cyber_threat_detector.Inference.Windows.{IsShown}
use ai_cyber_threat_detector.Inference.Batch.{all_slices-IsShown}
use ai_cyber_threat_detector.Inference.Predict.{Network}

abbrev plain : Network
plain = record {
  normalize = λ s. s;
  to_lower = λ s. s;
  idna = λ s. some s;
  forward = λ slices. some 90;
}

abbrev variants : List String
variants = "x1.bad.com" ∷ "bad.com" ∷ []

all_slices-IsShown_example : IsShown (encode "bad.com") 3 (all_slices variants)
unfolding encode
all_slices-IsShown_example =
    all_slices-IsShown variants "bad.com" 3 (Memᴰ.tail (Memᴰ.head refl)) (omega arith) (omega arith)
