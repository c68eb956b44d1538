-- ===== src/Access/Auth.antt =====
-- Authentication and scopes of api/deps.py. What a token decodes to is PyJWT's and the secret's: a parameter, where
-- `none` stands for each of the exceptions that `verify_token` raises.
use ai_cyber_threat_detector.Common.{
  Bool, true, false, not, ◌&&◌, Option, none, some, List, [], ◌∷◌, String, str_eq, if◌then◌else◌,
  contains, is_empty,
}
use ai_cyber_threat_detector.Common.Dict
use ai_cyber_threat_detector.Common.Dict.{Dict}
use ai_cyber_threat_detector.Common.Case.{lower}
use ai_cyber_threat_detector.Common.Text.{strip, starts_with, skip, has_part}

-- A member of a token's payload: a list of texts, a text, or something else, by its truth value.
pub data Claim : Type 0 where
  texts : List String → Claim
  text : String → Claim
  other : (truthy : Bool) → Claim

abbrev pub Principal : Type 0
Principal = Dict Claim

-- what a request carries: `HTTPBearer`'s credentials and two headers
pub record Credentials : Type 0 where
  pub bearer : Option String
  pub x_api_key : Option String
  pub authorization : Option String

-- how a dependency ends: with a principal, a 401, a 403, or an exception that is not handled
pub data Reply : Type 0 where
  granted : Principal → Reply
  unauthorized forbidden failed : Reply

-- a header or credential that is present and not empty
unfoldable pub given : Option String → Option String
given none = none
given (some s) = if str_eq s "" then none else some s

unfoldable pub strip_bearer : String → String
strip_bearer auth_hdr =
    if starts_with "bearer " (lower auth_hdr) then strip (skip 7 auth_hdr) else strip auth_hdr

unfoldable pub extract_token : Credentials → Option String
extract_token c = elim (given c.bearer) [
  | some token ↦ some token
  | none ↦ elim (given c.x_api_key) [
    | some token ↦ some token
    | none ↦ elim (given c.authorization) [
      | some auth_hdr ↦ some (strip_bearer auth_hdr)
      | none ↦ none
    ]
  ]
]

abbrev pub service_principal : Principal
service_principal = ("sub", text "service-key") ∷ ("scopes", texts ("*" ∷ [])) ∷ []

-- `s in scopes`, where scopes is `principal.get("scopes") or []`; `none` is a TypeError
unfoldable pub holds_scope : Option Claim → String → Option Bool
holds_scope none s = some false
holds_scope (some (texts l)) s = some (contains s l)
holds_scope (some (text t)) s = some (not (str_eq t "") && has_part s t)
holds_scope (some (other true)) s = none
holds_scope (some (other false)) s = some false

-- `required_scope not in scopes and "*" not in scopes`
unfoldable pub check_scope : String → Principal → Reply
check_scope required_scope principal =
    let scopes = Dict.get principal "scopes" in
    elim (holds_scope scopes required_scope) [
      | none ↦ failed
      | some true ↦ granted principal
      | some false ↦ elim (holds_scope scopes "*") [
        | some true ↦ granted principal
        | some false ↦ forbidden
        | none ↦ failed
      ]
    ]

-- a dependency that runs after another one
abbrev pub if_granted : Reply → (Principal → Reply) → Reply
if_granted (granted principal) k = k principal
if_granted unauthorized k = unauthorized
if_granted forbidden k = forbidden
if_granted failed k = failed

module _ (api_key : String) (verify_token : String → Option Principal) where
  -- the keys are compared as bytes, which differ if the texts do
  unfoldable pub authenticate : String → Reply
  authenticate token =
      if not (str_eq api_key "") && str_eq token api_key
      then granted service_principal
      else elim (verify_token token) [
        | none ↦ unauthorized
        | some payload ↦ if is_empty payload then unauthorized else granted payload
      ]

  unfoldable pub verify_auth : Credentials → Reply
  verify_auth c = elim (given (extract_token c)) [
    | none ↦ unauthorized
    | some token ↦ authenticate token
  ]

  unfoldable pub require_scope : String → Credentials → Reply
  require_scope required_scope c = if_granted (verify_auth c) (check_scope required_scope)
