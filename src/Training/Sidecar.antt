-- ===== src/Training/Sidecar.antt =====
-- A model file with its .sha256 beside it: written by save_traced_model of inference/train_model.py, read by _load_model_from_disk of
-- inference/models.py and by scripts/verify_model_integrity.py. The hash, and the format of a model, are parameters.
use Prim.Native.String.{◌++◌}
use ai_cyber_threat_detector.Common.{
  ℕ, zero, suc, Bool, false, Option, none, some, String, str_eq, if◌then◌else◌, ltb,
}
use ai_cyber_threat_detector.Common.Text.{strip, lstrip, is_space}

-- what is known of hashlib and torch: `jit_load` is none for an exception, `torch_load` is false for one
pub record Library (Bytes Model : Type 0) : Type 0 where
  pub sha256 : Bytes → String
  pub getsize : Bytes → ℕ
  pub jit_load : Bytes → Option Model
  pub torch_load : Bytes → Bool

-- the two files
pub record Pair (Bytes : Type 0) : Type 0 where
  pub artifact : Option Bytes
  pub sidecar : Option String

-- the exceptions
pub data Failure : Type 0 where
  too_large no_sidecar no_artifact mismatch unreadable : Failure

pub data Loaded (Model : Type 0) : Type 0 where
  loaded : Model → (sha : String) → Loaded Model
  failed : Failure → Loaded Model

-- How verify_model_integrity.py ends: with an exception, with status 1, or with its last line.
pub data Verification : Type 0 where
  exception rejected verified : Verification

-- f.read(n)
unfoldable pub read : ℕ → String → String
read zero s = String.[]
read (suc n) String.[] = String.[]
read (suc n) (String.◌∷◌ c s) = String.◌∷◌ c (read n s)

-- the characters up to the first space
unfoldable pub until_space : String → String
unfolding is_space
until_space String.[] = String.[]
until_space (String.◌∷◌ c s) =
    let rest = until_space s in if is_space c then String.[] else String.◌∷◌ c rest

-- s.split()[0]; `none` is the IndexError of a text without a word
unfoldable pub first_word : String → Option String
unfolding lstrip until_space
first_word s = let t = lstrip s in if str_eq t "" then none else some (until_space t)

module _ {Bytes Model : Type 0} (lib : Library Bytes Model) where
  -- `save_traced_model`, for what the traced model saves itself as
  unfoldable pub save_traced_model : Bytes → Pair Bytes → String × Pair Bytes
  save_traced_model traced_model p =
      let file_hash = lib.sha256 traced_model in
      (file_hash, record { artifact = some traced_model; sidecar = some (file_hash ++ "\n") })

  -- the size is only checked of a file that is there
  unfoldable pub is_too_large : ℕ → Pair Bytes → Bool
  is_too_large max_size p = elim p.artifact [ none ↦ false | some b ↦ ltb max_size (lib.getsize b) ]

  unfoldable pub check_digest : String → Option Bytes → Loaded Model
  check_digest expected_sha none = failed no_artifact
  check_digest expected_sha (some model_bytes) =
      let computed_sha = lib.sha256 model_bytes in
      if str_eq computed_sha expected_sha
      then (elim (lib.jit_load model_bytes) [
        | none ↦ failed unreadable
        | some m ↦ loaded m computed_sha
      ])
      else failed mismatch

  -- `_load_model_from_disk`, with the files as they are at its three reads
  unfoldable pub load_model_from_disk : ℕ → (at_size at_sha at_bytes : Pair Bytes) → Loaded Model
  unfolding is_too_large check_digest read
  load_model_from_disk max_size at_size at_sha at_bytes =
      if is_too_large max_size at_size then failed too_large else (elim at_sha.sidecar [
        | none ↦ failed no_sidecar
        | some text ↦ check_digest (strip (read 1024 text)) at_bytes.artifact
      ])

  unfoldable pub load_bytes : Bytes → Verification
  load_bytes model_bytes =
      if lib.torch_load model_bytes
      then verified
      else (elim (lib.jit_load model_bytes) [ none ↦ exception | some m ↦ verified ])

  unfoldable pub compare_digests : String → Option Bytes → Verification
  unfolding load_bytes
  compare_digests expected none = exception
  compare_digests expected (some model_bytes) =
      if str_eq (lib.sha256 model_bytes) expected then load_bytes model_bytes else rejected

  unfoldable pub verify_model_integrity : Pair Bytes → Verification
  unfolding first_word compare_digests
  verify_model_integrity p = elim p.sidecar [
    | none ↦ exception
    | some text ↦ elim (first_word text) [
      | none ↦ exception
      | some word ↦ compare_digests (strip word) p.artifact
    ]
  ]
