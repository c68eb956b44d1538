-- ===== src/Training/Reads.antt =====
-- What `save_traced_model` of inference/train_model.py writes is read back by inference/models.py and scripts/verify_model_integrity.py.
use Prim.Native.String.{◌++◌, count}
use text.Mathlib.TextLemmas.{length-append}
use ai_cyber_threat_detector.Common.{
  ℕ, ◌≤◌, ◌≡◌, refl, ap, true, false, some, String, str_eq, ltb, eq_refl, eq_iff, arith, Bool-cases,
  inl, inr,
}
use ai_cyber_threat_detector.Common.Text.{strip}
use ai_cyber_threat_detector.Training.Sidecar.{
  Library, Pair, loaded, verified, read, save_traced_model, load_model_from_disk, is_too_large,
  check_digest, verify_model_integrity, compare_digests, load_bytes,
}
use ai_cyber_threat_detector.Training.Digests.{
  is_word, strip_word, strip_line, lstrip_word, line_full, until_space_line, read_whole,
}

-- what hexdigest of SHA-256 looks like
pub record IsHex {Bytes Model : Type 0} (lib : Library Bytes Model) : Type 0 where
  pub word : (b : Bytes) → is_word (lib.sha256 b) ≡ true
  pub size : (b : Bytes) → count (lib.sha256 b) ≡ 64

module _ {Bytes Model : Type 0} (lib : Library Bytes Model) where
  module _ (hex : IsHex lib) where
    digest_full : (b : Bytes) → str_eq (lib.sha256 b) "" ≡ false
    digest_full b = go (lib.sha256 b) (hex.size b)
      where
        go : (s : String) → count s ≡ 64 → str_eq s "" ≡ false
        go s h = elim (Bool-cases (str_eq s "")) [
          | inl e ↦ absurd (omega (arith, h, ap count ((eq_iff s "").0 e)))
          | inr e ↦ e
        ]

    pub read_digest : (b : Bytes) → strip (read 1024 (lib.sha256 b)) ≡ lib.sha256 b
    read_digest b =
        rw (read_whole 1024 (lib.sha256 b) (omega (arith, hex.size b)))
          (strip_word (lib.sha256 b) (hex.word b))

    read_line : (b : Bytes) → strip (read 1024 (lib.sha256 b ++ "\n")) ≡ lib.sha256 b
    read_line b =
        let short : count (lib.sha256 b ++ "\n") ≤ 1024 =
          omega (arith, hex.size b, length-append (lib.sha256 b) "\n") in
        rw (read_whole 1024 (lib.sha256 b ++ "\n") short)
          (strip_line (lib.sha256 b) (hex.word b) (digest_full b))

    compare_itself :
        (b : Bytes) (m : Model)
        → lib.jit_load b ≡ some m
        → compare_digests lib (lib.sha256 b) (some b) ≡ verified
    unfolding compare_digests
    compare_itself b m good = elim (Bool-cases (lib.torch_load b)) [
      | inl e ↦ rw (eq_refl (lib.sha256 b), e) refl
      | inr e ↦ rw (eq_refl (lib.sha256 b), e, good, load_bytes) refl
    ]

    verify_saved :
        (b : Bytes) (m : Model)
        → lib.jit_load b ≡ some m
        → verify_model_integrity lib
            (record { artifact = some b; sidecar = some (lib.sha256 b ++ "\n") })
          ≡ verified
    unfolding verify_model_integrity
    verify_saved b m good =
        rw
          (
            lstrip_word (lib.sha256 b) "\n" (hex.word b) (digest_full b),
            line_full (lib.sha256 b) "\n" (digest_full b),
            until_space_line (lib.sha256 b) (hex.word b),
            strip_word (lib.sha256 b) (hex.word b),
            verify_model_integrity,
          )
          (compare_itself b m good)

    -- What `save_traced_model` writes loads as the model that was saved, with its digest, and passes the verification
    -- script, if the file is within the size limit and torch reads it.
    pub load_model_from_disk-save_traced_model :
        (b : Bytes) (m : Model) (max_size : ℕ) (p : Pair Bytes)
        → lib.jit_load b ≡ some m
        → ltb max_size (lib.getsize b) ≡ false
        → let q = (save_traced_model lib b p).1 in
          (load_model_from_disk lib max_size q q q ≡ loaded m (lib.sha256 b))
          × (verify_model_integrity lib q ≡ verified)
    unfolding save_traced_model load_model_from_disk verify_model_integrity is_too_large
        check_digest
    load_model_from_disk-save_traced_model b m max_size p good small = (
      rw (small, read_line b, eq_refl (lib.sha256 b), good, check_digest) refl,
      verify_saved b m good,
    )
