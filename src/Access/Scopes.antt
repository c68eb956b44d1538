-- ===== src/Access/Scopes.antt =====
-- Who passes `require_scope` of api/deps.py.
use ai_cyber_threat_detector.Common.{
  ◌≡◌, ◌⊎◌, inl, inr, refl, sym, ◌∙◌, ap, true, false, not, ◌&&◌, Option, some, [], ◌∷◌, String,
  str_eq, is_empty, eq_iff, eq_refl, Bool-cases, Option-cases, arith, contains,
}
use ai_cyber_threat_detector.Common.Dict
use ai_cyber_threat_detector.Access.Entitled.{IsNamed, holds_scope-IsNamed}
use ai_cyber_threat_detector.Access.Auth.{
  Principal, Credentials, Reply, granted, unauthorized, forbidden, failed, given, extract_token,
  service_principal, holds_scope, authenticate, verify_auth, check_scope, require_scope, if_granted,
}

granted_injective : (p q : Principal) → granted p ≡ granted q → p ≡ q
granted_injective p q e = cc e

check_scope_service :
    (scope : String) → check_scope scope service_principal ≡ granted service_principal
unfolding check_scope holds_scope Dict.get
check_scope_service scope = elim (Bool-cases (contains scope ("*" ∷ []))) [
  | inl e ↦ rw (e, check_scope) refl
  | inr e ↦ rw (e, check_scope) refl
]

-- the principal's scopes name the required one, or all
abbrev pub IsEntitled : String → Principal → Type 0
IsEntitled scope p = IsNamed (Dict.get p "scopes") scope ⊎ IsNamed (Dict.get p "scopes") "*"

check_scope-IsEntitled :
    (scope : String) (q p : Principal)
    → check_scope scope q ≡ granted p
    → (q ≡ p) × IsEntitled scope q
unfolding check_scope
check_scope-IsEntitled scope q p h = elim (Option-cases (holds_scope (Dict.get q "scopes") scope)) [
  | inl e ↦ absurd (cc (rw (e, check_scope) at h))
  | inr (true, e) ↦
      (granted_injective _ _ (rw (e, check_scope) at h), inl (holds_scope-IsNamed _ scope e))
  | inr (false, e) ↦ elim (Option-cases (holds_scope (Dict.get q "scopes") "*")) [
    | inl f ↦ absurd (cc (rw (e, f, check_scope) at h))
    | inr (true, f) ↦
        (granted_injective _ _ (rw (e, f, check_scope) at h), inr (holds_scope-IsNamed _ "*" f))
    | inr (false, f) ↦ absurd (cc (rw (e, f, check_scope) at h))
  ]
]

module _ (api_key : String) (verify_token : String → Option Principal) where
  -- what entitles the holder of a token to be a principal
  abbrev pub IsCredential : String → Principal → Type 0
  IsCredential token p =
      ((token ≡ api_key) × (p ≡ service_principal)) ⊎ (verify_token token ≡ some p)

  authenticate-IsCredential :
      (token : String) (p : Principal)
      → authenticate api_key verify_token token ≡ granted p
      → IsCredential token p
  unfolding authenticate
  authenticate-IsCredential token p h =
      elim (Bool-cases (not (str_eq api_key "") && str_eq token api_key)) [
        | inl e ↦
            inl ((eq_iff token api_key).0 (ground arith), sym (granted_injective _ _ (rw e at h)))
        | inr e ↦ elim (Option-cases (verify_token token)) [
          | inl f ↦ absurd (cc (rw (e, f) at h))
          | inr (q, f) ↦ elim (Bool-cases (is_empty q)) [
            | inl g ↦ absurd (cc (rw (e, f, g) at h))
            | inr g ↦ inr (f ∙ ap some (granted_injective _ _ (rw (e, f, g) at h)))
          ]
        ]
      ]

  verify_auth_token :
      (c : Credentials) (p : Principal)
      → verify_auth api_key verify_token c ≡ granted p
      → (token : String) × (given (extract_token c) ≡ some token) × IsCredential token p
  unfolding verify_auth
  verify_auth_token c p h = elim (Option-cases (given (extract_token c))) [
    | inl e ↦ absurd (cc (rw (e, verify_auth) at h))
    | inr (token, e) ↦ (token, e, authenticate-IsCredential token p (rw (e, verify_auth) at h))
  ]

  passed :
      (r : Reply) (k : Principal → Reply) (p : Principal)
      → if_granted r k ≡ granted p
      → (q : Principal) × (r ≡ granted q) × (k q ≡ granted p)
  passed (granted q) k p h = (q, refl, h)
  passed unauthorized k p h = absurd (cc h)
  passed forbidden k p h = absurd (cc h)
  passed failed k p h = absurd (cc h)

  -- Whoever passes a scope check presented a token that is not empty, and either it is the service key, or it
  -- verifies as that principal; and the principal has a claim "scopes" that is a list with the required scope or "*",
  -- or a text of which one of them is a part.
  pub require_scope_grants :
      (scope : String) (c : Credentials) (p : Principal)
      → require_scope api_key verify_token scope c ≡ granted p
      → ((token : String) × (given (extract_token c) ≡ some token) × IsCredential token p)
        × IsEntitled scope p
  unfolding require_scope
  require_scope_grants scope c p h =
      let (q, auth, check) = passed (verify_auth api_key verify_token c) (check_scope scope) p h in
      let (same, entitled) = check_scope-IsEntitled scope q p check in
      (verify_auth_token c p (rw same at auth), rw same at entitled)

  authenticate_key :
      str_eq api_key "" ≡ false
      → authenticate api_key verify_token api_key ≡ granted service_principal
  unfolding authenticate
  authenticate_key key = simp (key, eq_refl api_key)

  verify_auth_key :
      (c : Credentials)
      → str_eq api_key "" ≡ false
      → extract_token c ≡ some api_key
      → verify_auth api_key verify_token c ≡ granted service_principal
  unfolding given verify_auth
  verify_auth_key c key token =
      let presented : given (extract_token c) ≡ some api_key = rw token (simp key) in
      rw (presented, verify_auth) (authenticate_key key)

  -- The service key passes every scope check, whichever of the headers brings it.
  pub require_scope_key :
      (scope : String) (c : Credentials)
      → str_eq api_key "" ≡ false
      → extract_token c ≡ some api_key
      → require_scope api_key verify_token scope c ≡ granted service_principal
  unfolding require_scope
  require_scope_key scope c key token = rw (verify_auth_key c key token) (check_scope_service scope)
