-- ===== src/Enrichment/Fetch.antt =====
-- `_fetch_intel` of inference/enrichment.py. `ipaddress`, the answer of ipapi.co and the local intelligence of
-- inference/playbooks.py are parameters.
use ai_cyber_threat_detector.Common.{
  ℕ, Bool, false, not, ◌&&◌, ◌||◌, Option, none, some, List, [], ◌∷◌, String, str_eq, if◌then◌else◌,
  ltb, ◌==◌,
}
use ai_cyber_threat_detector.Common.Text.{strip}
use ai_cyber_threat_detector.Enrichment.Cache.{Cache, get_cached, set_cached}

-- what `ipaddress` says of an address
pub record Address : Type 0 where
  pub normal : String
  pub version : ℕ
  pub is_global : Bool
  pub is_private : Bool
  pub is_loopback : Bool
  pub is_link_local : Bool
  pub is_multicast : Bool
  pub is_reserved : Bool
  pub is_unspecified : Bool
  -- in 100.64.0.0/10, and in 169.254.0.0/16
  pub is_shared : Bool
  pub is_metadata : Bool

-- What the code reads of a response with status 2xx: the number of its bytes, and the dict of its JSON with its
-- error mark and its ip, where `none` is JSON that does not parse, is no dict, or is empty.
pub record Response {ℓ} (A : Type ℓ) : Type ℓ where
  pub size : ℕ
  pub body : Option (A × Bool × Option String)

-- the condition under which the address is refused
unfoldable pub is_refused : Address → Bool
is_refused addr =
    not (addr.version == 4)
    || (not addr.is_global
        || (addr.is_private
            || (addr.is_loopback
                || (addr.is_link_local
                    || (addr.is_multicast
                        || (addr.is_reserved
                            || (addr.is_unspecified || (addr.is_shared || addr.is_metadata))))))))

-- data that carries no error and names the address that was asked for
unfoldable pub is_answer : String → Bool → Option String → Bool
is_answer clean_ip error ip = not error && (elim ip [ none ↦ false | some t ↦ str_eq t clean_ip ])

-- what a lookup returns (`none` for the empty dict), the cache after it, and the addresses it asked ipapi.co for
pub record Fetched {ℓ} (A : Type ℓ) : Type ℓ where
  pub intel : Option A
  pub cache : Cache A
  pub asked : List String

module _ {ℓ} {A : Type ℓ} (cache_ttl max_cache_size : ℕ) (ip_address : String → Option Address)
    (http_get : String → Option (Response A)) (fallback_intel : String → A) where
  -- what the lookup comes to without an answer
  unfoldable pub offline : ℕ → String → Cache A → Fetched A
  offline now clean_ip cache =
      let adapted_data = fallback_intel clean_ip in
      record {
        intel = some adapted_data;
        cache = set_cached cache_ttl max_cache_size now clean_ip adapted_data cache;
        asked = clean_ip ∷ [];
      }

  -- `http_get` is `none` if the request fails
  unfoldable pub ask : ℕ → String → Cache A → Fetched A
  ask now clean_ip cache = elim (http_get clean_ip) [
    | none ↦ offline now clean_ip cache
    | some r ↦
        if ltb 65536 r.size
        then record { intel = none; cache = cache; asked = clean_ip ∷ [] }
        else elim r.body [
          | none ↦ offline now clean_ip cache
          | some (answer, error, ip) ↦
              if is_answer clean_ip error ip
              then record {
                intel = some answer;
                cache = set_cached cache_ttl max_cache_size now clean_ip answer cache;
                asked = clean_ip ∷ [];
              }
              else offline now clean_ip cache
        ]
  ]

  unfoldable pub fetch_intel : ℕ → String → Cache A → Fetched A
  fetch_intel now ip cache =
      let (cached, cache') = get_cached now ip cache in
      elim cached [
        | some hit ↦ record { intel = some hit; cache = cache'; asked = [] }
        | none ↦ elim (ip_address (strip ip)) [
          | none ↦ record { intel = none; cache = cache'; asked = [] }
          | some addr ↦
              if is_refused addr
              then record { intel = none; cache = cache'; asked = [] }
              else ask now addr.normal cache'
        ]
      ]
