-- ===== src/Training/Deploy.antt =====
-- The deployment at the end of a cycle of scripts/continuous_training.py, and a load of the model at any moment of it.
use ai_cyber_threat_detector.Common.{
  ℕ, ◌≡◌, refl, ◌∙◌, false, Option, none, some, str_eq, ltb, eq_refl, eq_iff, arith, ◌>>=◌, or_else,
}
use ai_cyber_threat_detector.Training.Sidecar.{
  Library, Pair, Loaded, loaded, failed, mismatch, load_model_from_disk, is_too_large, check_digest,
}
use ai_cyber_threat_detector.Training.Reads.{IsHex, read_digest}

-- models/cnn_dga.pt and models/cnn_dga_temp.pt, each with its sidecar
pub record Files (Bytes : Type 0) : Type 0 where
  pub live : Pair Bytes
  pub temp : Pair Bytes

-- the two calls of os.replace; `none` is the exception of one whose file is missing
module _ {Bytes : Type 0} where
  unfoldable pub replace_sidecar : Files Bytes → Option (Files Bytes)
  replace_sidecar f = elim f.temp.sidecar [
    | none ↦ none
    | some sha ↦ some (record {
      live = record f.live { sidecar = some sha };
      temp = record f.temp { sidecar = none };
    })
  ]

  unfoldable pub replace_artifact : Files Bytes → Option (Files Bytes)
  replace_artifact f = elim f.temp.artifact [
    | none ↦ none
    | some b ↦ some (record {
      live = record f.live { artifact = some b };
      temp = record f.temp { artifact = none };
    })
  ]

  unfoldable pub deploy : Files Bytes → Option (Files Bytes)
  unfolding replace_sidecar replace_artifact
  deploy f = do hashed ← replace_sidecar f; replace_artifact hashed

-- when a file is read: before the deployment, between its two steps, or after it
pub data Moment : Type 0 where
  before between after : Moment

module _ {Bytes Model : Type 0} (lib : Library Bytes Model) where
  -- the temporary files of an epoch; the digest is written without a newline
  unfoldable pub save_temp : Bytes → Files Bytes → Files Bytes
  save_temp traced_model f = record f {
    temp = record { artifact = some traced_model; sidecar = some (lib.sha256 traced_model) };
  }

  module _ (old new : Bytes) (t : Pair Bytes) where
    -- an epoch of the running cycle has saved `new`, and an earlier cycle has deployed `old`
    abbrev pub deploying : Files Bytes
    deploying = save_temp new (record {
      live = record { artifact = some old; sidecar = some (lib.sha256 old) };
      temp = t;
    })

    unfoldable pub live_at : Moment → Pair Bytes
    unfolding deploy
    live_at before = deploying.live
    live_at between = (or_else (replace_sidecar deploying) deploying).live
    live_at after = (or_else (deploy deploying) deploying).live

  -- what a load finds whose digest is read at one moment of a deployment and whose model at another
  abbrev pub outcome : (old new : Loaded Model) → Moment → Moment → Loaded Model
  outcome old new before before = old
  outcome old new before between = old
  outcome old new between after = new
  outcome old new after after = new
  outcome old new _ _ = failed mismatch

  module _ (hex : IsHex lib) where
    -- a load whose reads are the size, the digest of `x` and the bytes of `y`
    load_digest :
        (max_size : ℕ) (p q r : Pair Bytes) (x y : Bytes)
        → is_too_large lib max_size p ≡ false
        → q.sidecar ≡ some (lib.sha256 x)
        → r.artifact ≡ some y
        → load_model_from_disk lib max_size p q r ≡ check_digest lib (lib.sha256 x) (some y)
    unfolding load_model_from_disk
    load_digest max_size p q r x y small e f =
        rw (small, e, load_model_from_disk, read_digest lib hex x, f) refl

    check_same :
        (b : Bytes) (m : Model)
        → lib.jit_load b ≡ some m
        → check_digest lib (lib.sha256 b) (some b) ≡ loaded m (lib.sha256 b)
    unfolding check_digest
    check_same b m good = rw (eq_refl (lib.sha256 b), good, check_digest) refl

    check_other :
        (x y : Bytes)
        → str_eq (lib.sha256 y) (lib.sha256 x) ≡ false
        → check_digest lib (lib.sha256 x) (some y) ≡ failed mismatch
    unfolding check_digest
    check_other x y differ = rw differ refl

    module _ (old new : Bytes) (old_model new_model : Model) (max_size : ℕ) (t : Pair Bytes) where
      live_at_small :
          (h : Moment)
          → ltb max_size (lib.getsize old) ≡ false
          → ltb max_size (lib.getsize new) ≡ false
          → is_too_large lib max_size (live_at old new t h) ≡ false
      unfolding live_at is_too_large save_temp
      live_at_small before p q = p
      live_at_small between p q = p
      live_at_small after p q = q

      -- A load that runs while a new model is deployed never gets anything but the old model with the old digest, or the new
      -- model with the new digest: if it reads the digest and the model at moments where they belong together, it
      -- gets that model, and otherwise it fails. Both models can be loaded and are within the size limit, and their digests differ.
      pub load_model_from_disk-deploy :
          (h i j : Moment)
          → lib.jit_load old ≡ some old_model
          → lib.jit_load new ≡ some new_model
          → ltb max_size (lib.getsize old) ≡ false
          → ltb max_size (lib.getsize new) ≡ false
          → str_eq (lib.sha256 old) (lib.sha256 new) ≡ false
          → load_model_from_disk lib max_size
              (live_at old new t h)
              (live_at old new t i)
              (live_at old new t j)
            ≡ outcome (loaded old_model (lib.sha256 old)) (loaded new_model (lib.sha256 new)) i j
      unfolding live_at save_temp
      load_model_from_disk-deploy h i j good_old good_new small_old small_new differ = go i j
        where
          small : is_too_large lib max_size (live_at old new t h) ≡ false
          small = live_at_small h small_old small_new

          other : str_eq (lib.sha256 new) (lib.sha256 old) ≡ false
          other = ground (
            arith,
            eq_iff (lib.sha256 new) (lib.sha256 old),
            eq_iff (lib.sha256 old) (lib.sha256 new),
          )

          load :
              (i j : Moment) (x y : Bytes)
              → (live_at old new t i).sidecar ≡ some (lib.sha256 x)
              → (live_at old new t j).artifact ≡ some y
              → load_model_from_disk lib max_size
                  (live_at old new t h)
                  (live_at old new t i)
                  (live_at old new t j)
                ≡ check_digest lib (lib.sha256 x) (some y)
          load i j x y e f =
              load_digest max_size (live_at old new t h) (live_at old new t i) (live_at old new t j)
                x y small e f

          go :
              (i j : Moment)
              → load_model_from_disk lib max_size
                  (live_at old new t h)
                  (live_at old new t i)
                  (live_at old new t j)
                ≡ outcome
                    (loaded old_model (lib.sha256 old))
                    (loaded new_model (lib.sha256 new))
                    i
                    j
          go before before =
              load before before old old refl refl ∙ check_same old old_model good_old
          go before between =
              load before between old old refl refl ∙ check_same old old_model good_old
          go before after = load before after old new refl refl ∙ check_other old new other
          go between before = load between before new old refl refl ∙ check_other new old differ
          go between between = load between between new old refl refl ∙ check_other new old differ
          go between after =
              load between after new new refl refl ∙ check_same new new_model good_new
          go after before = load after before new old refl refl ∙ check_other new old differ
          go after between = load after between new old refl refl ∙ check_other new old differ
          go after after = load after after new new refl refl ∙ check_same new new_model good_new
