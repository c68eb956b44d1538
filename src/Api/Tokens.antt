-- ===== src/Api/Tokens.antt =====
-- The tokens of api/auth.py: minted, verified, and presented to `require_scope` of api/deps.py. PyJWT is a parameter.
use ai_cyber_threat_detector.Common.{
  ℕ, ◌+◌, ◌*◌, ◌≤◌, ◌<◌, ◌≡◌, refl, ◌∙◌, Bool, true, false, not, ◌||◌, Option, none, some, List, [],
  ◌∷◌, String, str_eq, if◌then◌else◌, contains, Bool-cases, inl, inr, ltb, arith, ltb→lt,
}
use ai_cyber_threat_detector.Common.Dict
use ai_cyber_threat_detector.Access.Auth.{
  texts, text, other, Principal, Credentials, Reply, granted, unauthorized, forbidden, given,
  extract_token, authenticate, verify_auth, check_scope, require_scope, holds_scope,
}

-- `datetime`s are in seconds
pub record Payload : Type 0 where
  pub sub : String
  pub scopes : List String
  pub iat : ℕ
  pub exp : ℕ

-- the payload as the dict that `jwt.decode` returns; a time is a number that is not 0
unfoldable pub claims : Payload → Principal
claims p =
    ("sub", text p.sub)
    ∷ ("scopes", texts p.scopes)
    ∷ ("iat", other true)
    ∷ ("exp", other true)
    ∷ []

-- `jwt.encode` and `jwt.decode` with HS256; `none` is one of the exceptions of the latter
pub record Jwt : Type 0 where
  pub encode : Payload → (secret : String) → String
  pub decode : (token secret : String) → (now : ℕ) → Option Principal

-- what PyJWT does with a token that it signed
pub record IsSigned (jwt : Jwt) (p : Payload) (secret : String) : Type 0 where
  -- it decodes to its payload between the two times
  pub decode-encode :
      (now : ℕ)
      → p.iat ≤ now
      → now < p.exp
      → jwt.decode (jwt.encode p secret) secret now ≡ some (claims p)
  -- from `exp` on it has expired
  pub decode_late : (now : ℕ) → p.exp ≤ now → jwt.decode (jwt.encode p secret) secret now ≡ none

-- The check at import: the number of bytes of a secret that is set. `false` is the RuntimeError.
unfoldable pub secret_accepted : (byte_count : String → ℕ) → Option String → Bool
secret_accepted byte_count none = true
secret_accepted byte_count (some secret) = str_eq secret "" || not (ltb (byte_count secret) 32)

-- `now` is when the token is made; both calls of `datetime.now` see the same second
unfoldable pub payload_of : (expiry_min now : ℕ) → List String → Option String → Payload
payload_of expiry_min now scopes subject = record {
  sub = elim subject [ none ↦ "tsoc-service" | some s ↦ if str_eq s "" then "tsoc-service" else s ];
  scopes = scopes;
  iat = now;
  exp = now + expiry_min * 60;
}

module _ (jwt : Jwt) where
  unfoldable pub create_token :
      (secret : String) (expiry_min now : ℕ) → List String → Option String → String
  unfolding payload_of
  create_token secret expiry_min now scopes subject =
      jwt.encode (payload_of expiry_min now scopes subject) secret

  -- `none` is a JWTError, or the RuntimeError of a secret that is not set
  unfoldable pub verify_token : Option String → ℕ → String → Option Principal
  verify_token none now token = none
  verify_token (some secret) now token =
      if str_eq secret "" then none else jwt.decode token secret now

check_scope-claims :
    (scope : String) (p : Payload)
    → check_scope scope (claims p)
      ≡ (if contains scope p.scopes || contains "*" p.scopes then granted (claims p) else forbidden)
unfolding check_scope holds_scope Dict.get claims
check_scope-claims scope p = elim (Bool-cases (contains scope p.scopes)) [
  | inl e ↦ rw (e, check_scope) refl
  | inr e ↦ elim (Bool-cases (contains "*" p.scopes)) [
    | inl f ↦ rw (e, f, check_scope) refl
    | inr f ↦ rw (e, f, check_scope) refl
  ]
]

module _ (api_key : String) (verify : String → Option Principal) (c : Credentials)
    (token : String) where
  -- a token that is not the service key is judged by what it decodes to
  require_scope_refused :
      (scope : String)
      → str_eq token api_key ≡ false
      → given (extract_token c) ≡ some token
      → verify token ≡ none
      → require_scope api_key verify scope c ≡ unauthorized
  unfolding require_scope verify_auth authenticate
  require_scope_refused scope other_key presented bad = elim (Bool-cases (str_eq api_key "")) [
    | inl e ↦ rw (presented, verify_auth, e, bad, authenticate) refl
    | inr e ↦ rw (presented, verify_auth, e, other_key, bad, authenticate) refl
  ]

  require_scope_checked :
      (scope : String) (p : Payload)
      → str_eq token api_key ≡ false
      → given (extract_token c) ≡ some token
      → verify token ≡ some (claims p)
      → require_scope api_key verify scope c ≡ check_scope scope (claims p)
  unfolding require_scope verify_auth authenticate claims
  require_scope_checked scope p other_key presented good = elim (Bool-cases (str_eq api_key "")) [
    | inl e ↦ rw (presented, verify_auth, e, good, authenticate) refl
    | inr e ↦ rw (presented, verify_auth, e, other_key, good, authenticate) refl
  ]

module _ (jwt : Jwt) (api_key secret : String) (expiry_min made : ℕ) (scopes : List String)
    (subject : Option String) (c : Credentials) where
  abbrev pub token : String
  token = create_token jwt secret expiry_min made scopes subject

  abbrev pub decide : String → ℕ → Reply
  decide scope now = require_scope api_key (verify_token jwt (some secret) now) scope c

  -- A token that `create_token` mints for some scopes passes a check for one of them, and any check if "*" is
  -- among them, and is refused as 403 otherwise, until it expires; then it is refused as 401. The secret is set, and the token is not
  -- the service key by chance.
  pub create_token-require_scope :
      (scope : String) (now : ℕ)
      → IsSigned jwt (payload_of expiry_min made scopes subject) secret
      → str_eq secret "" ≡ false
      → str_eq token api_key ≡ false
      → given (extract_token c) ≡ some token
      → made ≤ now
      → decide scope now ≡ (
          if ltb now (made + expiry_min * 60)
          then (if contains scope scopes || contains "*" scopes
              then granted (claims (payload_of expiry_min made scopes subject))
              else forbidden)
          else unauthorized)
  unfolding verify_token create_token payload_of
  create_token-require_scope scope now signed set other_key presented later =
      elim (Bool-cases (ltb now (made + expiry_min * 60))) [
        | inl e ↦ rw e (
            require_scope_checked api_key (verify_token jwt (some secret) now) c token scope
              (payload_of expiry_min made scopes subject) other_key presented
              (rw set (signed.decode-encode now later (ltb→lt now (made + expiry_min * 60) e)))
            ∙ check_scope-claims scope (payload_of expiry_min made scopes subject))
        | inr e ↦ rw e (
            require_scope_refused api_key (verify_token jwt (some secret) now) c token scope
              other_key presented (rw set (signed.decode_late now (ground (arith, e)))))
      ]
