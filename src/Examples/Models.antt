-- ===== src/Examples/Models.antt =====
-- Two models, their digests, and a cycle of the trainer.
use Prim.Native.String.{count}
use ai_cyber_threat_detector.Common.{
  ℕ, ◌≤◌, ◌≡◌, ◌⊎◌, refl, Bool, true, false, none, some, String, if◌then◌else◌, ltb, ◌*◌,
}
use ai_cyber_threat_detector.Common.Text.{is_space}
use ai_cyber_threat_detector.Training.Sidecar.{
  Library, Pair, loaded, failed, mismatch, verified, load_model_from_disk, save_traced_model,
  verify_model_integrity,
}
use ai_cyber_threat_detector.Training.Deploy.{
  Files, before, after, live_at, load_model_from_disk-deploy,
}
use ai_cyber_threat_detector.Training.Reads.{IsHex, load_model_from_disk-save_traced_model}
use ai_cyber_threat_detector.Training.Loop.{Progress, train_cycle, end_cycle}
use ai_cyber_threat_detector.Training.Progress.{pair_of, train_cycle-end_cycle}
use ai_cyber_threat_detector.Training.Digests.{is_word}

abbrev old_digest : String
old_digest = "0123456789abcdef0123456789abcdef0123456789abcdef0123456789abcdef"

abbrev new_digest : String
new_digest = "fedcba9876543210fedcba9876543210fedcba9876543210fedcba9876543210"

-- models by their number, which stands for their bytes too
abbrev library : Library Bool Bool
library = record {
  sha256 = λ b. if b then new_digest else old_digest;
  getsize = λ b. 1000;
  jit_load = λ b. some b;
  torch_load = λ b. false;
}

library-IsHex : IsHex library
unfolding is_word is_space
library-IsHex = record { word = word; size = size }
  where
    word : (b : Bool) → is_word (library.sha256 b) ≡ true
    word true = refl
    word false = refl

    size : (b : Bool) → count (library.sha256 b) ≡ 64
    size true = refl
    size false = refl

abbrev no_files : Pair Bool
no_files = record { artifact = none; sidecar = none }

abbrev saved : Pair Bool
saved = (save_traced_model library true no_files).1

load_model_from_disk-save_traced_model_example :
    (load_model_from_disk library 52428800 saved saved saved ≡ loaded true new_digest)
    × (verify_model_integrity library saved ≡ verified)
load_model_from_disk-save_traced_model_example =
    load_model_from_disk-save_traced_model library library-IsHex true true 52428800 no_files refl
      refl

-- the digest is read before the deployment and the model after it
load_model_from_disk-deploy_example :
    load_model_from_disk library 52428800
      (live_at library false true no_files before)
      (live_at library false true no_files before)
      (live_at library false true no_files after)
    ≡ failed mismatch
load_model_from_disk-deploy_example =
    load_model_from_disk-deploy library library-IsHex false true false true 52428800 no_files before
      before after refl refl refl refl refl

abbrev no_models : Files Bool
no_models = record { live = no_files; temp = no_files }

-- the accuracy rises in the first three epochs
abbrev accuracy : ℕ → ℕ
accuracy n = if ltb n 4 then n * 20 else 50

train_cycle-end_cycle_example :
    (q : Progress (Files Bool)) × (train_cycle library accuracy (λ n. true) no_models ≡ some q)
    × (q.epoch ≤ 30)
    × ((5 ≤ q.epochs_no_improve) ⊎ (q.epoch ≡ 30))
    × ((e : ℕ) → 1 ≤ e → e ≤ q.epoch → accuracy e ≤ q.best_acc)
    × (((q.best_acc ≡ 0) × (q.store ≡ no_models))
        ⊎ ((e : ℕ) × (e ≤ q.epoch)
            × (accuracy e ≡ q.best_acc)
            × (g : Files Bool) × (end_cycle q ≡ some g)
            × (g.live ≡ pair_of library true)))
train_cycle-end_cycle_example = train_cycle-end_cycle library accuracy (λ n. true) no_models
