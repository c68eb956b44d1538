-- ===== src/Examples/Callers.antt =====
-- Callers of the API behind a proxy of the cluster, and their tokens.
use ai_cyber_threat_detector.Common.{
  ℕ, ◌≡◌, refl, Bool, true, false, Option, none, some, [], ◌∷◌, String, str_eq, if◌then◌else◌,
}
use ai_cyber_threat_detector.Common.Dict
use ai_cyber_threat_detector.Common.Text.{strip}
use ai_cyber_threat_detector.Access.Address.{IpLibrary, Request}
use ai_cyber_threat_detector.Access.Auth.{
  texts, Principal, Credentials, given, extract_token, authenticate, verify_auth, check_scope,
  require_scope, holds_scope,
}
use ai_cyber_threat_detector.Access.Scopes.{IsCredential, IsEntitled, require_scope_grants}

data Host : Type 0 where
  home proxy caller forged : Host

abbrev text_of : Host → String
text_of home = "127.0.0.1"
text_of proxy = "10.244.0.9"
text_of caller = "8.8.8.8"
text_of forged = "1.1.1.1"

abbrev host_of : String → Option Host
host_of s =
    if str_eq s "127.0.0.1"
    then some home
    else if str_eq s "10.244.0.9"
    then some proxy
    else if str_eq s "8.8.8.8"
    then some caller
    else if str_eq s "1.1.1.1"
    then some forged
    else none

abbrev holds_host : ℕ → Host → Bool
holds_host n proxy = true
holds_host n _ = false

host_of-text_of : (h : Host) → host_of (strip (text_of h)) ≡ some h
unfolding strip
host_of-text_of home = refl
host_of-text_of proxy = refl
host_of-text_of caller = refl
host_of-text_of forged = refl

-- four addresses, and a network that holds one of them
abbrev library : IpLibrary
library = record {
  Addr = Host;
  Net = ℕ;
  ip_address = host_of;
  str_addr = text_of;
  ip_network = λ s. if str_eq s "10.0.0.0/8" then some 8 else none;
  version = λ n. 4;
  prefixlen = λ n. n;
  str_net = λ n. "10.0.0.0/8";
  holds = holds_host;
  ip_address-str_addr = host_of-text_of;
}

abbrev request : Request
request = record {
  client_host = some "10.244.0.9";
  forwarded_for = some "1.1.1.1, 8.8.8.8,10.244.0.9";
  real_ip = none;
}

abbrev header : String
header = "1.1.1.1, 8.8.8.8,10.244.0.9"

abbrev reader : Principal
reader = ("scopes", texts ("alerts:read" ∷ [])) ∷ []

abbrev verify : String → Option Principal
verify s = if str_eq s "jwt" then some reader else none

abbrev with_token : Credentials
with_token = record { bearer = some "jwt"; x_api_key = none; authorization = none }

abbrev with_key : Credentials
with_key = record { bearer = none; x_api_key = some "secret"; authorization = none }

require_scope_grants_example :
    ((token : String) × (given (extract_token with_token) ≡ some token)
      × IsCredential "secret" verify token reader)
    × IsEntitled "alerts:read" reader
unfolding require_scope verify_auth authenticate check_scope holds_scope extract_token given
    Dict.get
require_scope_grants_example =
    require_scope_grants "secret" verify "alerts:read" with_token reader refl
