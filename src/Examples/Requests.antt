-- ===== src/Examples/Requests.antt =====
-- Requests to the API: pages of three alerts, a token, the statistics, and what the API starts with.
use ai_cyber_threat_detector.Common.{
  ℕ, ◌≤◌, ◌≡◌, ◌≢◌, ◌==◌, refl, false, Option, none, some, List, [], ◌∷◌, String, str_eq,
  if◌then◌else◌, arith, length, ltb, lt→ltb,
}
use ai_cyber_threat_detector.Common.Dict
use ai_cyber_threat_detector.Common.Dict.{Dict}
use ai_cyber_threat_detector.Common.Int.{pos}
use ai_cyber_threat_detector.Access.Auth.{
  texts, Principal, Credentials, granted, unauthorized, given, extract_token, authenticate,
  verify_auth, check_scope, require_scope, holds_scope,
}
use ai_cyber_threat_detector.Api.Alerts.{Alert, get_alerts}
use ai_cyber_threat_detector.Api.Paging.{follow, follow-get_alerts}
use ai_cyber_threat_detector.Api.Sorting.{sort_desc, sort_desc-IsOrdering}
use ai_cyber_threat_detector.Api.Stats.{get_stats, get_stats-total, IsSeparate, named_sum, Group}
use ai_cyber_threat_detector.Api.Tokens.{
  Jwt, Payload, payload_of, claims, decide, create_token-require_scope, create_token,
}
use ai_cyber_threat_detector.Api.Tracing.{
  Request, Route, Context, Traced, serve, serve-Expected, raised, unexpected,
}
use ai_cyber_threat_detector.Api.Boot.{Config}

abbrev row : ℕ → String → Alert
row n sev = record {
  id = n;
  alert_id = "a";
  timestamp = "2026-01-01T00:00:00Z";
  event_type = "conn";
  threat_class = some "DDoS";
  confidence_score = some 95;
  severity = some sev;
  source_ip = some "10.0.0.1";
  destination_ip = none;
  evidence = none;
  trace_id = none;
  flow_id = none;
  span_id = none;
  mitre_tactic = none;
  mitre_technique = none;
  model_name = none;
  model_version = none;
  schema_version = none;
}

abbrev table : List Alert
table = row 1 "high" ∷ row 3 "critical" ∷ row 2 "high" ∷ []

abbrev reader : Principal
reader = ("scopes", texts ("alerts:read" ∷ [])) ∷ []

abbrev verify : String → Option Principal
verify s = if str_eq s "jwt" then some reader else none

abbrev with_token : Credentials
with_token = record { bearer = some "jwt"; x_api_key = none; authorization = none }

other : (m n : ℕ) → (m == n) ≡ false → m ≢ n
other m n h e = absurd (ground (arith, h, e))

-- two rows at a time
follow-get_alerts_example :
    follow
      (λ cursor.
        get_alerts "key" verify sort_desc with_token (some (pos cursor)) (some (pos 2)) table)
      4
      0
    ≡ some (sort_desc table)
unfolding require_scope verify_auth authenticate check_scope holds_scope extract_token given
    sort_desc Dict.get
follow-get_alerts_example =
    follow-get_alerts sort_desc sort_desc-IsOrdering table
      ((other 3 1 refl, (other 2 1 refl, tt)), ((other 2 3 refl, tt), (tt, tt)))
      (omega arith, (omega arith, (omega arith, tt))) "key" verify with_token reader 1 4
      (omega arith) refl refl (omega arith)

abbrev groups : List Group
groups = (some "high", 2) ∷ (some "critical", 1) ∷ []

get_stats-total_example :
    ((get_stats groups).total_alerts ≤ length table)
    × (named_sum (get_stats groups) ≤ (get_stats groups).total_alerts)
    × (IsSeparate groups → (get_stats groups).total_alerts ≡ length table)
get_stats-total_example = get_stats-total table groups (record { splits = refl })

-- "HIGH" and "high" are two groups and one key: three alerts, of which two are counted
get_stats_cases : (get_stats ((some "HIGH", 1) ∷ (some "high", 2) ∷ [])).total_alerts ≡ 2
unfolding get_stats Dict.put
get_stats_cases = refl

abbrev pages : Payload
pages = record { sub = "tsoc-service"; scopes = "alerts:read" ∷ []; iat = 100; exp = 1900 }

-- a signer of one token
abbrev signer : Jwt
signer = record {
  encode = λ p secret. "jwt";
  decode = λ token secret now. if ltb now 1900 then some (claims pages) else none;
}

abbrev Decided : ℕ → Type 0
Decided now =
    decide signer "key" "0123456789abcdef0123456789abcdef" 30 100 ("alerts:read" ∷ []) none
      with_token "alerts:read" now
    ≡ (if ltb now 1900 then granted (claims pages) else unauthorized)

late_none : (now : ℕ) → 1900 ≤ now → (if ltb now 1900 then some (claims pages) else none) ≡ none
late_none now late = ground (arith, late)

create_token-require_scope_example : Decided 1000
unfolding create_token payload_of extract_token given
create_token-require_scope_example =
    create_token-require_scope signer "key" "0123456789abcdef0123456789abcdef" 30 100
      ("alerts:read" ∷ []) none with_token "alerts:read" 1000
      (record {
        decode-encode = λ now lo hi. rw (lt→ltb now 1900 hi) refl;
        decode_late = λ now late. late_none now late;
      })
      refl refl refl (omega arith)

abbrev request : Request
request = record {
  request_headers = ("X-Correlation-ID", "abc") ∷ [];
  url_path = "/api/v1/stats";
  fresh_id = "req-0123456789abcdef";
}

abbrev failing : Route
failing = record { lines = ("INFO", "start") ∷ []; ending = raised (unexpected "KeyError" "'x'") }

abbrev idle : Context
idle = record { correlation_id_ctx = none; path_ctx = none; log = [] }

abbrev message : String → String → String
message type_name text = type_name

serve-Expected_example : Traced message request failing idle (serve message request failing idle)
serve-Expected_example = serve-Expected message request failing idle

abbrev environment : Dict String
environment =
    ("DATABASE_URL", "postgresql://db/tsoc")
    ∷ ("TSOC_API_KEY", "key")
    ∷ ("REDIS_PASSWORD", "pw")
    ∷ []

abbrev config : Config
config = record {
  engine = record {
    url = "postgresql://db/tsoc";
    connect_timeout = some 5;
    sslmode = some "verify-full";
    timeout = none;
    check_same_thread = none;
    pool_size = some 20;
    max_overflow = some 20;
    pool_timeout = some 5;
  };
  expiry_min = pos 30;
  jwt_secret = none;
  limiter = some "rediss://:pw@localhost:6379/1";
  api_key = "key";
}
