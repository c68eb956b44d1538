-- ===== src/Training/Signing.antt =====
-- scripts/sign_manifest.py: the manifest of a model, signed with a key that is configured. SHA-256 and Ed25519 are parameters; keys and signatures are texts of hex digits.
use ai_cyber_threat_detector.Common.{
  ◌≡◌, refl, Bool, true, Option, none, some, String, str_eq, if◌then◌else◌,
}
use ai_cyber_threat_detector.Common.Dict
use ai_cyber_threat_detector.Common.Dict.{Dict}

pub record Signature (Key : Type 0) : Type 0 where
  -- `none` for a text that is no private key
  pub from_private_bytes : String → Option Key
  pub sign : Key → (digest : String) → String
  -- what a verifier with the public half checks
  pub accepts : Key → (digest sig : String) → Bool
  pub accepts-sign : (k : Key) (digest : String) → accepts k digest (sign k digest) ≡ true

-- without a public key, on purpose
pub record Manifest : Type 0 where
  pub artifact : String
  pub sha256 : String
  pub sig : String

module _ {Bytes Key : Type 0} (hexdigest : Bytes → String) (basename : String → String)
    (ed : Signature Key) where
  unfoldable pub load_persistent_private_key : Dict String → Option Key
  load_persistent_private_key env = elim (Dict.get env "MODEL_SIGNING_PRIVATE_KEY") [
    | none ↦ none
    | some raw_hex ↦ if str_eq raw_hex "" then none else ed.from_private_bytes raw_hex
  ]

  unfoldable pub manifest_of : String → Bytes → Key → Manifest
  manifest_of path model k =
      let digest = hexdigest model in
      record { artifact = basename path; sha256 = digest; sig = ed.sign k digest }

  -- The manifest, and the file that holds it afterwards. `none` is the exception of a model that cannot be read, or of a key that is missing.
  unfoldable pub sign_artifact :
      Dict String
      → (path : String) → Option Bytes
      → (file : Option Manifest) → Option Manifest × Option Manifest
  unfolding load_persistent_private_key manifest_of
  sign_artifact env path none file = (none, file)
  sign_artifact env path (some model) file = elim (load_persistent_private_key env) [
    | none ↦ (none, file)
    | some k ↦ (some (manifest_of path model k), some (manifest_of path model k))
  ]

  -- Without a configured key nothing is written; with one the manifest has the digest of the model and a signature of it that the key's public half accepts.
  pub sign_artifact-accepts :
      (env : Dict String) (path : String) (model : Bytes) (file : Option Manifest)
      → (load_persistent_private_key env ≡ none
          → sign_artifact env path (some model) file ≡ (none, file))
        × ((k : Key)
            → load_persistent_private_key env ≡ some k
            → (m : Manifest) × (sign_artifact env path (some model) file ≡ (some m, some m))
              × (m.sha256 ≡ hexdigest model)
              × (ed.accepts k m.sha256 m.sig ≡ true))
  unfolding sign_artifact manifest_of
  sign_artifact-accepts env path model file = (
    (λ e. rw (e, sign_artifact) refl),
    (λ k e. (
      manifest_of path model k,
      rw (e, sign_artifact) refl,
      refl,
      ed.accepts-sign k (hexdigest model),
    )),
  )
