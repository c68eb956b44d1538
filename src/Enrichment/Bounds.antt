-- ===== src/Enrichment/Bounds.antt =====
-- What the cache of inference/enrichment.py keeps and finds again.
use ai_cyber_threat_detector.Common.{
  ℕ, ◌+◌, ◌≤◌, ◌<◌, ◌≡◌, inl, inr, refl, ◌∙◌, ap, true, none, some, [], ◌∷◌, ◌++◌, String, str_eq,
  eq_refl, ltb, length, length-append, Bool-cases, Option-cases, arith,
}
use ai_cyber_threat_detector.Common.Dict
use ai_cyber_threat_detector.Common.Dict.{Dict, get-remove}
use ai_cyber_threat_detector.Enrichment.Cache.{Cache, move_to_end, get_cached, evict, set_cached}

module _ {ℓ} {V : Type ℓ} where
  length-remove : (d : Dict V) (k : String) → length (Dict.remove d k) ≤ length d
  unfolding Dict.remove
  length-remove [] k = omega arith
  length-remove ((j, w) ∷ d) k = ground (arith, length-remove d k)

  length-remove_present :
      (d : Dict V) (k : String) {v : V}
      → Dict.get d k ≡ some v
      → length (Dict.remove d k) < length d
  unfolding Dict.remove Dict.get
  length-remove_present [] k h = absurd (cc h)
  length-remove_present ((j, w) ∷ d) k h = elim (Bool-cases (str_eq j k)) [
    | inl e ↦ rw e (omega (arith, length-remove d k))
    | inr e ↦ rw e (omega (arith, length-remove_present d k (rw e at h)))
  ]

  get-append_absent :
      (d : Dict V) (k : String) (v : V)
      → Dict.get d k ≡ none
      → Dict.get (d ++ (k, v) ∷ []) k ≡ some v
  unfolding Dict.get
  get-append_absent [] k v h = rw (eq_refl k) refl
  get-append_absent ((j, w) ∷ d) k v h = elim (Bool-cases (str_eq j k)) [
    | inl e ↦ absurd (cc (rw e at h))
    | inr e ↦ rw e (get-append_absent d k v (rw e at h))
  ]

  put_absent :
      (d : Dict V) (k : String) (v : V) → Dict.get d k ≡ none → Dict.put d k v ≡ d ++ (k, v) ∷ []
  unfolding Dict.get Dict.put
  put_absent [] k v h = refl
  put_absent ((j, w) ∷ d) k v h = elim (Bool-cases (str_eq j k)) [
    | inl e ↦ absurd (cc (rw e at h))
    | inr e ↦ rw e (ap (◌∷◌ (j, w)) (put_absent d k v (rw e at h)))
  ]

  put_last :
      (d : Dict V) (k : String) (w v : V)
      → Dict.get d k ≡ none
      → Dict.put (d ++ (k, w) ∷ []) k v ≡ d ++ (k, v) ∷ []
  unfolding Dict.get Dict.put
  put_last [] k w v h = rw (eq_refl k) refl
  put_last ((j, u) ∷ d) k w v h = elim (Bool-cases (str_eq j k)) [
    | inl e ↦ absurd (cc (rw e at h))
    | inr e ↦ rw e (ap (◌∷◌ (j, u)) (put_last d k w v (rw e at h)))
  ]

module _ {ℓ} {A : Type ℓ} where
  pub length-evict : (n : ℕ) (c : Cache A) → length (evict n c) ≤ n
  unfolding evict
  length-evict n [] = omega arith
  length-evict n (e ∷ c) = ground (arith, length-evict n c)

  length-move_to_end : (ip : String) (c : Cache A) → length (move_to_end ip c) ≤ length c
  unfolding move_to_end
  length-move_to_end ip c = elim (Option-cases (Dict.get c ip)) [
    | inl e ↦ rw (e, move_to_end) (omega arith)
    | inr (v, e) ↦
        rw (e, move_to_end)
          (omega
            (arith, length-append (Dict.remove c ip) ((ip, v) ∷ []), length-remove_present c ip e))
  ]

  pub length-get_cached :
      (now : ℕ) (ip : String) (c : Cache A) → length (get_cached now ip c).1 ≤ length c
  unfolding get_cached
  length-get_cached now ip c = elim (Option-cases (Dict.get c ip)) [
    | inl e ↦ rw (e, get_cached) (omega arith)
    | inr ((v, exp), e) ↦ elim (Bool-cases (ltb now exp)) [
      | inl f ↦ rw (e, get_cached) (rw f (length-move_to_end ip c))
      | inr f ↦ rw (e, get_cached) (rw f (length-remove c ip))
    ]
  ]

  get-evict_last :
      (n : ℕ) (d : Cache A) (k : String) (v : A × ℕ)
      → 0 < n
      → Dict.get d k ≡ none
      → Dict.get (evict n (d ++ (k, v) ∷ [])) k ≡ some v
  unfolding evict Dict.get
  get-evict_last n [] k v pos h = elim (Bool-cases (ltb n 1)) [
    | inl e ↦ absurd (ground (arith, e))
    | inr e ↦ rw e (rw (eq_refl k) refl)
  ]
  get-evict_last n ((j, w) ∷ d) k v pos h = elim (Bool-cases (str_eq j k)) [
    | inl e ↦ absurd (cc (rw e at h))
    | inr e ↦ elim (Bool-cases (ltb n (length ((j, w) ∷ (d ++ (k, v) ∷ []))))) [
      | inl f ↦ rw f (get-evict_last n d k v pos (rw e at h))
      | inr f ↦ rw f (rw e (get-append_absent d k v (rw e at h)))
    ]
  ]

  -- before the eviction the new entry is the last, and no other has its key
  set_cached_last :
      (ttl n now : ℕ) (ip : String) (intel : A) (c : Cache A)
      → (d : Cache A) × (Dict.get d ip ≡ none)
        × (set_cached ttl n now ip intel c ≡ evict n (d ++ (ip, (intel, now + ttl)) ∷ []))
  unfolding set_cached move_to_end
  set_cached_last ttl n now ip intel c = elim (Option-cases (Dict.get c ip)) [
    | inl e ↦ (
      c,
      e,
      rw (e, set_cached, move_to_end) (ap (evict n) (put_absent c ip (intel, now + ttl) e)),
    )
    | inr (w, e) ↦
        let gone : Dict.get (Dict.remove c ip) ip ≡ none = get-remove c ip ip ∙ simp (eq_refl ip) in
        (
          Dict.remove c ip,
          gone,
          rw (e, set_cached, move_to_end)
              (ap (evict n) (put_last (Dict.remove c ip) ip w (intel, now + ttl) gone)),
        )
  ]

  -- What was cached last for an address is found again until it expires, even in a full cache, if the cache may
  -- hold anything at all.
  pub get_cached-set_cached :
      (ttl n now now' : ℕ) (ip : String) (intel : A) (c : Cache A)
      → 0 < n
      → now' < now + ttl
      → (get_cached now' ip (set_cached ttl n now ip intel c)).0 ≡ some intel
  unfolding get_cached
  get_cached-set_cached ttl n now now' ip intel c pos early =
      let (d, absent, same) = set_cached_last ttl n now ip intel c in
      let found = get-evict_last n d ip (intel, now + ttl) pos absent in
      let soon : ltb now' (now + ttl) ≡ true = ground arith in
      rw same (rw (found, get_cached) (rw soon refl))
