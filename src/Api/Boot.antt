-- ===== src/Api/Boot.antt =====
-- What must be configured before the API starts: the import of api/main.py runs that of api/database.py, api/auth.py and
-- api/deps.py. The environment is a dict of texts, and what slowapi makes of a URI is a parameter.
use Prim.Native.String.{◌++◌}
use ai_cyber_threat_detector.Common.{
  ℕ, Bool, false, not, ◌&&◌, Option, none, some, List, [], ◌∷◌, String, str_eq, or_else,
  if◌then◌else◌, contains,
}
use ai_cyber_threat_detector.Common.Dict
use ai_cyber_threat_detector.Common.Dict.{Dict}
use ai_cyber_threat_detector.Common.Int.{ℤ}
use ai_cyber_threat_detector.Common.Case.{lower}
use ai_cyber_threat_detector.Common.Text.{has_part, starts_with, parse_int, strip}
use ai_cyber_threat_detector.Api.Tokens.{secret_accepted}

-- the exceptions that end the import
pub data Fault : Type 0 where
  no_database_url weak_sslmode bad_expiry weak_secret no_redis_password no_limiter no_api_key :
      Fault

pub data Boot {ℓ} (A : Type ℓ) : Type ℓ where
  started : A → Boot A
  halted : Fault → Boot A

infixl 5 ◌>>=◌
abbrev pub ◌>>=◌ : {A B : Type 0} → Boot A → (A → Boot B) → Boot B
started a >>= f = f a
halted e >>= f = halted e

pub record Engine : Type 0 where
  pub url : String
  pub connect_timeout : Option ℕ
  pub sslmode : Option String
  pub timeout : Option ℕ
  pub check_same_thread : Option Bool
  pub pool_size : Option ℕ
  pub max_overflow : Option ℕ
  pub pool_timeout : Option ℕ

abbrev pub plain_engine : String → Engine
plain_engine url = record {
  url = url;
  connect_timeout = none;
  sslmode = none;
  timeout = none;
  check_same_thread = none;
  pool_size = none;
  max_overflow = none;
  pool_timeout = none;
}

abbrev pub safe_sslmodes : List String
safe_sslmodes = "require" ∷ "verify-ca" ∷ "verify-full" ∷ []

unfoldable pub truthy : Option String → Bool
truthy none = false
truthy (some s) = not (str_eq s "")

abbrev pub getenv : Dict String → String → String → String
getenv env name default = or_else (Dict.get env name) default

unfoldable pub engine_of : Dict String → String → Boot Engine
engine_of env url =
    let sslmode = getenv env "DB_SSLMODE" "verify-full" in
    if has_part "postgresql" url
    then (if contains sslmode safe_sslmodes
        then started (record (plain_engine url) {
          connect_timeout = some 5;
          sslmode = some sslmode;
          pool_size = some 20;
          max_overflow = some 20;
          pool_timeout = some 5;
        })
        else halted weak_sslmode)
    else if has_part "sqlite" url
    then started (record (plain_engine url) { timeout = some 5; check_same_thread = some false })
    else started (plain_engine url)

unfoldable pub database : Dict String → Boot Engine
unfolding engine_of
database env =
    let url = getenv env "DATABASE_URL" "" in
    if str_eq url "" then halted no_database_url else engine_of env url

-- the expiry in minutes, and the secret
unfoldable pub auth : (byte_count : String → ℕ) → Dict String → Boot (ℤ × Option String)
unfolding secret_accepted
auth byte_count env =
    let secret = Dict.get env "TSOC_JWT_SECRET" in
    elim (parse_int (strip (getenv env "TSOC_JWT_EXPIRY_MIN" "30"))) [
      | none ↦ halted bad_expiry
      | some minutes ↦
          if secret_accepted byte_count secret
          then started (minutes, secret)
          else halted weak_secret
    ]

unfoldable pub redis_ssl : Dict String → Bool
redis_ssl env = contains (lower (getenv env "REDIS_SSL" "true")) ("true" ∷ "1" ∷ "yes" ∷ [])

unfoldable pub storage_uri : (quote_plus : String → String) → Dict String → String
unfolding redis_ssl truthy
storage_uri quote_plus env =
    let password = getenv env "REDIS_PASSWORD" "" in
    let scheme = if redis_ssl env then "rediss" else "redis" in
    let login = if str_eq password "" then "" else ":" ++ (quote_plus password ++ "@") in
    getenv env "LIMITER_STORAGE_URI" (
      scheme
      ++ ("://"
          ++ (login
              ++ (getenv env "REDIS_HOST" "localhost"
                  ++ (":" ++ (getenv env "REDIS_PORT" "6379" ++ "/1"))))))

-- A `Limiter` without a URI, or with an empty one: where it counts is slowapi's choice, by RATELIMIT_STORAGE_URL of the
-- environment or of a file .env, or else in memory. `connects ""` says whether it starts.
unfoldable pub limiter_of_library : (connects : String → Bool) → Boot (Option String)
limiter_of_library connects = if connects "" then started none else halted no_limiter

-- The URI that the limiter is handed, if any. An exception of the first `Limiter`, and a URI without TLS, lead to one
-- without a URI.
unfoldable pub limiter_storage : (connects : String → Bool) → String → Boot (Option String)
unfolding limiter_of_library
limiter_storage connects uri =
    if not (str_eq uri "") && (starts_with "rediss://" uri && connects uri)
    then started (some uri)
    else limiter_of_library connects

unfoldable pub api_key_of : Dict String → Boot String
api_key_of env = elim (Dict.get env "TSOC_API_KEY") [
  | none ↦ halted no_api_key
  | some key ↦ if str_eq key "" then halted no_api_key else started key
]

pub record Config : Type 0 where
  pub engine : Engine
  pub expiry_min : ℤ
  pub jwt_secret : Option String
  pub limiter : Option String
  pub api_key : String

module _ (byte_count : String → ℕ) (quote_plus : String → String) (connects : String → Bool) where
  unfoldable pub deps : Dict String → Boot (Option String × String)
  unfolding storage_uri limiter_storage redis_ssl truthy api_key_of
  deps env =
      if redis_ssl env && not (truthy (Dict.get env "REDIS_PASSWORD"))
      then halted no_redis_password
      else (do
        storage ← limiter_storage connects (storage_uri quote_plus env)
        key ← api_key_of env
        started (storage, key))

  unfoldable pub boot : Dict String → Boot Config
  unfolding database auth deps
  boot env = do
    engine ← database env
    tokens ← auth byte_count env
    services ← deps env
    started (record {
      engine = engine;
      expiry_min = tokens.0;
      jwt_secret = tokens.1;
      limiter = services.0;
      api_key = services.1;
    })
