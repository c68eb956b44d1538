-- ===== src/Correlation/Connection.antt =====
-- The connection pool that `IncidentCorrelator` of inference/correlation.py sets up. What the files and libraries of the host offer as
-- certificates is a parameter.
use ai_cyber_threat_detector.Common.{
  ◌≡◌, inl, inr, refl, Bool, true, false, not, ◌&&◌, Option, none, some, String, str_eq,
  if◌then◌else◌, Bool-cases, Option-cases,
}
use ai_cyber_threat_detector.Common.Dict
use ai_cyber_threat_detector.Common.Dict.{Dict}
use ai_cyber_threat_detector.Common.Int.{ℤ}
use ai_cyber_threat_detector.Common.Text.{parse_int, strip}
use ai_cyber_threat_detector.Api.Boot.{getenv, redis_ssl, truthy}

-- `ssl_ca_certs` or `ssl_ca_path`
pub data Authority : Type 0 where
  ca_certs ca_path : String → Authority

pub record Certificates : Type 0 where
  pub exists_ : String → Bool
  -- certifi, if it is installed
  pub certifi_where : Option String
  pub cafile : Option String
  pub capath : Option String

pub record Pool : Type 0 where
  pub host : String
  pub port : ℤ
  pub password : String
  -- SSLConnection with required certificates, or the plain connection
  pub ssl : Bool
  pub authority : Option Authority

unfoldable pub default_paths : Certificates → Option Authority
default_paths h = elim h.cafile [
  | some f ↦ some (ca_certs f)
  | none ↦ elim h.capath [ some p ↦ some (ca_path p) | none ↦ none ]
]

unfoldable pub default_authority : Certificates → Option Authority
unfolding default_paths
default_authority h = elim h.certifi_where [ some f ↦ some (ca_certs f) | none ↦ default_paths h ]

unfoldable pub authority_of : Certificates → Dict String → Option Authority
unfolding default_authority
authority_of h env = elim (Dict.get env "REDIS_CA_CERT_PATH") [
  | none ↦ default_authority h
  | some path ↦
      if not (str_eq path "") && h.exists_ path then some (ca_certs path) else default_authority h
]

-- `none` is the exception: of a port that is no number, or of a password that is missing
unfoldable pub connect : Certificates → Dict String → Option Pool
unfolding authority_of redis_ssl
connect h env = elim (parse_int (strip (getenv env "REDIS_PORT" "6379"))) [
  | none ↦ none
  | some port ↦ elim (Dict.get env "REDIS_PASSWORD") [
    | none ↦ none
    | some password ↦
        if str_eq password ""
        then none
        else some (record {
          host = getenv env "REDIS_HOST" "localhost";
          port = port;
          password = password;
          ssl = redis_ssl env;
          authority = if redis_ssl env then authority_of h env else none;
        })
  ]
]

-- What a pool has that was set up
abbrev pub IsGuarded : Dict String → Pool → Type 0
IsGuarded env p =
    (str_eq p.password "" ≡ false)
    × (Dict.get env "REDIS_PASSWORD" ≡ some p.password)
    × (p.ssl ≡ redis_ssl env)

some_injective : (p q : Pool) → some p ≡ some q → p ≡ q
some_injective p q e = cc e

-- The correlator never connects without a password, and it uses TLS exactly if the API does, which reads the same variables; with such an environment the check of the API for a
-- missing password passes too.
pub connect-IsGuarded :
    (h : Certificates) (env : Dict String) (p : Pool)
    → connect h env ≡ some p
    → IsGuarded env p × (truthy (Dict.get env "REDIS_PASSWORD") ≡ true)
unfolding connect truthy
connect-IsGuarded h env p e =
    elim (Option-cases (parse_int (strip (getenv env "REDIS_PORT" "6379")))) [
      | inl f ↦ absurd (cc (rw (f, connect) at e))
      | inr (port, f) ↦ elim (Option-cases (Dict.get env "REDIS_PASSWORD")) [
        | inl g ↦ absurd (cc (rw (f, g, connect) at e))
        | inr (password, g) ↦ elim (Bool-cases (str_eq password "")) [
          | inl b ↦ absurd (cc (rw (f, connect, g, b, connect) at e))
          | inr b ↦
              let same = some_injective _ p (rw (f, connect, g, b, connect) at e) in
              rw (← same) ((b, g, refl), rw (g, truthy) (rw b refl))
        ]
      ]
    ]
