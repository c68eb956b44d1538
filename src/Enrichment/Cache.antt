-- ===== src/Enrichment/Cache.antt =====
-- `_get_cached` and `_set_cached` of inference/enrichment.py: an OrderedDict, oldest first, of data and the time
-- at which they expire.
use ai_cyber_threat_detector.Common.{
  ℕ, ◌+◌, Option, none, some, [], ◌∷◌, ◌++◌, String, if◌then◌else◌, ltb, length,
}
use ai_cyber_threat_detector.Common.Dict
use ai_cyber_threat_detector.Common.Dict.{Dict}

abbrev pub Cache {ℓ} : Type ℓ → Type ℓ
Cache A = Dict (A × ℕ)

module _ {ℓ} {A : Type ℓ} where
  -- self._cache.move_to_end(ip), if it is there
  unfoldable pub move_to_end : String → Cache A → Cache A
  move_to_end ip cache = elim (Dict.get cache ip) [
    | none ↦ cache
    | some entry ↦ Dict.remove cache ip ++ (ip, entry) ∷ []
  ]

  unfoldable pub get_cached : ℕ → String → Cache A → Option A × Cache A
  get_cached now ip cache = elim (Dict.get cache ip) [
    | none ↦ (none, cache)
    | some (intel, exp) ↦
        if ltb now exp then (some intel, move_to_end ip cache) else (none, Dict.remove cache ip)
  ]

  -- while len(self._cache) > self._max_cache_size: self._cache.popitem(last=False)
  unfoldable pub evict : ℕ → Cache A → Cache A
  evict max_cache_size [] = []
  evict max_cache_size (entry ∷ cache) =
      let rest = evict max_cache_size cache in
      if ltb max_cache_size (length (entry ∷ cache)) then rest else entry ∷ cache

  unfoldable pub set_cached : (cache_ttl max_cache_size now : ℕ) → String → A → Cache A → Cache A
  set_cached cache_ttl max_cache_size now ip intel cache =
      evict max_cache_size (Dict.put (move_to_end ip cache) ip (intel, now + cache_ttl))
