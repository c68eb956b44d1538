-- ===== src/Api/Secure.antt =====
-- With what configuration api/main.py starts, and api/database.py, api/auth.py and api/deps.py with it.
use ai_cyber_threat_detector.Common.{
  ℕ, ◌≡◌, true, false, Option, some, String, str_eq, contains, ◌≤◌,
}
use ai_cyber_threat_detector.Common.Dict
use ai_cyber_threat_detector.Common.Dict.{Dict}
use ai_cyber_threat_detector.Common.Text.{has_part, starts_with}
use ai_cyber_threat_detector.Api.Boot.{Boot, Engine, safe_sslmodes}

-- PostgreSQL is only used over verified or required TLS
abbrev pub IsEncrypted : Engine → Type 0
IsEncrypted e =
    has_part "postgresql" e.url ≡ true
    → (mode : String) × (e.sslmode ≡ some mode) × (contains mode safe_sslmodes ≡ true)

-- a URI that the rate limiter is handed is one of a Redis over TLS
abbrev pub IsPrivate : Option String → Type 0
IsPrivate storage = (uri : String) → storage ≡ some uri → starts_with "rediss://" uri ≡ true

-- a secret that is set and not empty has at least 32 bytes
abbrev pub IsLong : (byte_count : String → ℕ) → Option String → Type 0
IsLong byte_count secret = (s : String) → secret ≡ some s → str_eq s "" ≡ false → 32 ≤ byte_count s
