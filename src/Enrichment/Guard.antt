-- ===== src/Enrichment/Guard.antt =====
-- What `_fetch_intel` of inference/enrichment.py asks the network for, and how much it keeps.
use ai_cyber_threat_detector.Common.{
  ℕ, ◌≤◌, ◌≡◌, ◌⊎◌, inl, inr, refl, true, false, Option, some, [], ◌∷◌, String, ltb, length,
  Bool-cases, Option-cases, arith,
}
use ai_cyber_threat_detector.Common.Text.{strip}
use ai_cyber_threat_detector.Enrichment.Cache.{Cache, get_cached, set_cached}
use ai_cyber_threat_detector.Enrichment.Bounds.{length-evict, length-get_cached}
use ai_cyber_threat_detector.Enrichment.Fetch.{
  Address, Response, is_refused, is_answer, Fetched, offline, ask, fetch_intel,
}

-- an address of the public internet, of version 4
pub record IsPublic (addr : Address) : Type 0 where
  pub version : addr.version ≡ 4
  pub is_global : addr.is_global ≡ true
  pub is_private : addr.is_private ≡ false
  pub is_loopback : addr.is_loopback ≡ false
  pub is_link_local : addr.is_link_local ≡ false
  pub is_multicast : addr.is_multicast ≡ false
  pub is_reserved : addr.is_reserved ≡ false
  pub is_unspecified : addr.is_unspecified ≡ false
  pub is_shared : addr.is_shared ≡ false
  pub is_metadata : addr.is_metadata ≡ false

accepted-IsPublic : (addr : Address) → is_refused addr ≡ false → IsPublic addr
unfolding is_refused
accepted-IsPublic addr h = record {
  version = ground (arith, h);
  is_global = ground (arith, h);
  is_private = ground (arith, h);
  is_loopback = ground (arith, h);
  is_link_local = ground (arith, h);
  is_multicast = ground (arith, h);
  is_reserved = ground (arith, h);
  is_unspecified = ground (arith, h);
  is_shared = ground (arith, h);
  is_metadata = ground (arith, h);
}

module _ {ℓ} {A : Type ℓ} (ttl n : ℕ) (ip_address : String → Option Address)
    (http_get : String → Option (Response A)) (fallback : String → A) where
  length-set_cached :
      (now : ℕ) (ip : String) (intel : A) (c : Cache A)
      → length (set_cached ttl n now ip intel c) ≤ n
  unfolding set_cached
  length-set_cached now ip intel c = length-evict n _

  -- a lookup of one address: it asks for nothing else, and keeps the cache within its size
  record IsLookup (c : Cache A) (clean_ip : String) (f : Fetched A) : Type 0 where
    asked : f.asked ≡ clean_ip ∷ []
    kept : length c ≤ n → length f.cache ≤ n

  offline-IsLookup :
      (now : ℕ) (ip : String) (c : Cache A)
      → IsLookup c ip (offline ttl n ip_address http_get fallback now ip c)
  unfolding offline
  offline-IsLookup now ip c = record {
    asked = refl;
    kept = λ h. length-set_cached now ip (fallback ip) c;
  }

  ask-IsLookup :
      (now : ℕ) (ip : String) (c : Cache A)
      → IsLookup c ip (ask ttl n ip_address http_get fallback now ip c)
  unfolding ask
  ask-IsLookup now ip c =
      let off = offline-IsLookup now ip c in
      elim (Option-cases (http_get ip)) [
        | inl e ↦ rw (e, ask) off
        | inr (r, e) ↦ elim (Bool-cases (ltb 65536 r.size)) [
          | inl f ↦ rw (e, ask) (simp f (record { asked = refl; kept = λ h. h }))
          | inr f ↦ elim (Option-cases r.body) [
            | inl g ↦ rw (e, ask) (simp (f, g) off)
            | inr ((answer, error, named), g) ↦ elim (Bool-cases (is_answer ip error named)) [
              | inl k ↦
                  rw (e, ask)
                    (simp (f, g, k)
                      (record { asked = refl; kept = λ h. length-set_cached now ip answer c }))
              | inr k ↦ rw (e, ask) (simp (f, g, k) off)
            ]
          ]
        ]
      ]

  module _ (now : ℕ) (ip : String) (c : Cache A) where
    -- An enrichment asks the network for nothing, or for exactly one address: one that `ipaddress` reads, in its normal
    -- form, of version 4 and global, and neither private, loopback, link-local, multicast, reserved nor unspecified,
    -- nor in the networks 100.64.0.0/10 and 169.254.0.0/16.
    pub asked-fetch_intel :
        ((fetch_intel ttl n ip_address http_get fallback now ip c).asked ≡ [])
        ⊎ ((addr : Address) × (ip_address (strip ip) ≡ some addr)
            × IsPublic addr
            × ((fetch_intel ttl n ip_address http_get fallback now ip c).asked ≡ addr.normal ∷ []))
    unfolding fetch_intel
    asked-fetch_intel = elim (Option-cases (get_cached now ip c).0) [
      | inr (hit, e) ↦ inl (rw (e, fetch_intel) refl)
      | inl e ↦ elim (Option-cases (ip_address (strip ip))) [
        | inl f ↦ inl (rw (e, f, fetch_intel) refl)
        | inr (addr, f) ↦ elim (Bool-cases (is_refused addr)) [
          | inl g ↦ inl (rw (e, f, fetch_intel) (rw g refl))
          | inr g ↦ inr (
            addr,
            f,
            accepted-IsPublic addr g,
            rw (e, f, fetch_intel)
                (rw g ((ask-IsLookup now addr.normal (get_cached now ip c).1).asked)),
          )
        ]
      ]
    ]

    -- The cache never outgrows its maximal size by an enrichment, whatever the lookup answers.
    pub length-fetch_intel :
        length c ≤ n → length (fetch_intel ttl n ip_address http_get fallback now ip c).cache ≤ n
    unfolding fetch_intel
    length-fetch_intel h =
        let less = length-get_cached now ip c in
        let kept : length (get_cached now ip c).1 ≤ n = omega (arith, less, h) in
        elim (Option-cases (get_cached now ip c).0) [
          | inr (hit, e) ↦ rw (e, fetch_intel) kept
          | inl e ↦ elim (Option-cases (ip_address (strip ip))) [
            | inl f ↦ rw (e, f, fetch_intel) kept
            | inr (addr, f) ↦ elim (Bool-cases (is_refused addr)) [
              | inl g ↦ rw (e, f, fetch_intel) (rw g kept)
              | inr g ↦
                  rw (e, f, fetch_intel)
                    (rw g ((ask-IsLookup now addr.normal (get_cached now ip c).1).kept kept))
            ]
          ]
        ]
