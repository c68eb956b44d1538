-- ===== src/Access/Client.antt =====
-- Which hop of X-Forwarded-For `get_remote_address` of api/deps.py believes.
use ai_cyber_threat_detector.Common.{
  ◌≡◌, refl, sym, ◌∙◌, ap, true, false, Option, none, some, List, [], ◌∷◌, ◌++◌, String,
  if◌then◌else◌, or_else, Bool-cases, Option-cases, inl, inr,
}
use ai_cyber_threat_detector.Access.Address.{
  IpLibrary, Request, reversed, last, validate_ip, is_trusted_proxy, scan,
}

-- the client's own address, from the TCP peer
abbrev pub peer : (l : IpLibrary) → Request → String
peer l request = or_else (validate_ip l (or_else request.client_host "127.0.0.1")) "127.0.0.1"

abbrev pub first : List String → Option String
first [] = none
first (x ∷ xs) = some x

last-append : (xs : List String) (x : String) → last (xs ++ x ∷ []) ≡ some x
unfolding last
last-append [] x = refl
last-append (y ∷ xs) x = rw (last-append xs x) refl

module _ (l : IpLibrary) where
  -- the hops that are addresses, in normal form
  unfoldable pub addresses : List String → List String
  addresses [] = []
  addresses (ip ∷ ips) = elim (validate_ip l ip) [
    | none ↦ addresses ips
    | some a ↦ a ∷ addresses ips
  ]

  pub addresses_invalid :
      (ip : String) (ips : List String)
      → validate_ip l ip ≡ none
      → addresses (ip ∷ ips) ≡ addresses ips
  unfolding addresses
  addresses_invalid ip ips e = rw (e, addresses) refl

  pub addresses_valid :
      (ip : String) (ips : List String) {v : String}
      → validate_ip l ip ≡ some v
      → addresses (ip ∷ ips) ≡ v ∷ addresses ips
  unfolding addresses
  addresses_valid ip ips e = rw (e, addresses) refl

  module _ (nets : List (IpLibrary.Net l)) where
    -- the rightmost address that is no trusted proxy
    unfoldable pub rightmost : List String → Option String
    rightmost [] = none
    rightmost (a ∷ rest) = elim (rightmost rest) [
      | some b ↦ some b
      | none ↦ if is_trusted_proxy l nets a then none else some a
    ]

    scan_invalid :
        (ip : String) (ips acc : List String)
        → validate_ip l ip ≡ none
        → scan l nets (ip ∷ ips) acc ≡ scan l nets ips acc
    unfolding scan
    scan_invalid ip ips acc e = rw (e, scan) refl

    scan_trusted :
        (ip : String) (ips acc : List String) {v : String}
        → validate_ip l ip ≡ some v
        → is_trusted_proxy l nets v ≡ true
        → scan l nets (ip ∷ ips) acc ≡ scan l nets ips (acc ++ v ∷ [])
    unfolding scan
    scan_trusted ip ips acc e t = rw (e, scan) (rw t refl)

    pub scan_stops :
        (ip : String) (ips acc : List String) {v : String}
        → validate_ip l ip ≡ some v
        → is_trusted_proxy l nets v ≡ false
        → scan l nets (ip ∷ ips) acc ≡ (some v, acc ++ v ∷ [])
    unfolding scan
    scan_stops ip ips acc e t = rw (e, scan) (rw t refl)

    pub rightmost_later :
        (a : String) (rest : List String) {b : String}
        → rightmost rest ≡ some b
        → rightmost (a ∷ rest) ≡ some b
    unfolding rightmost
    rightmost_later a rest e = rw (e, rightmost) refl

    pub rightmost_here :
        (a : String) (rest : List String)
        → rightmost rest ≡ none
        → rightmost (a ∷ rest) ≡ (if is_trusted_proxy l nets a then none else some a)
    unfolding rightmost
    rightmost_here a rest e = rw (e, rightmost) refl

    scan_found :
        (ips : List String) (x : String) (acc : List String) {a : String}
        → (scan l nets ips acc).0 ≡ some a
        → scan l nets (ips ++ x ∷ []) acc ≡ scan l nets ips acc
    unfolding scan
    scan_found [] x acc h = absurd (cc h)
    scan_found (ip ∷ ips) x acc h = elim (Option-cases (validate_ip l ip)) [
      | inl e ↦
          rw (scan_invalid ip ips acc e, scan_invalid ip (ips ++ x ∷ []) acc e)
            (scan_found ips x acc (rw (scan_invalid ip ips acc e) at h))
      | inr (v, e) ↦ elim (Bool-cases (is_trusted_proxy l nets v)) [
        | inl t ↦
            rw (scan_trusted ip ips acc e t, scan_trusted ip (ips ++ x ∷ []) acc e t)
              (scan_found ips x (acc ++ v ∷ []) (rw (scan_trusted ip ips acc e t) at h))
        | inr t ↦ rw (scan_stops ip ips acc e t, scan_stops ip (ips ++ x ∷ []) acc e t) refl
      ]
    ]

    scan_missed :
        (ips : List String) (x : String) (acc : List String)
        → (scan l nets ips acc).0 ≡ none
        → scan l nets (ips ++ x ∷ []) acc ≡ scan l nets (x ∷ []) (scan l nets ips acc).1
    unfolding scan
    scan_missed [] x acc h = refl
    scan_missed (ip ∷ ips) x acc h = elim (Option-cases (validate_ip l ip)) [
      | inl e ↦
          rw (scan_invalid ip ips acc e, scan_invalid ip (ips ++ x ∷ []) acc e)
            (scan_missed ips x acc (rw (scan_invalid ip ips acc e) at h))
      | inr (v, e) ↦ elim (Bool-cases (is_trusted_proxy l nets v)) [
        | inl t ↦
            rw (scan_trusted ip ips acc e t, scan_trusted ip (ips ++ x ∷ []) acc e t)
              (scan_missed ips x (acc ++ v ∷ []) (rw (scan_trusted ip ips acc e t) at h))
        | inr t ↦ absurd (cc (rw (scan_stops ip ips acc e t) at h))
      ]
    ]

    -- what the loop over the reversed hops finds
    pub record Scanned (ips : List String) : Type 0 where
      pub found : (scan l nets (reversed ips) []).0 ≡ rightmost (addresses ips)
      pub valid :
          (scan l nets (reversed ips) []).0 ≡ none
          → last (scan l nets (reversed ips) []).1 ≡ first (addresses ips)

    module _ (ip : String) (ips : List String) (h : Scanned ips) where
      Scanned-later : {a : String} → (scan l nets (reversed ips) []).0 ≡ some a → Scanned (ip ∷ ips)
      unfolding reversed
      Scanned-later e =
          let step = scan_found (reversed ips) ip [] e in
          record {
            found =
                ap (λ p. p.0) step
                ∙ e
                ∙ sym (elim (Option-cases (validate_ip l ip)) [
                  | inl f ↦ rw (addresses_invalid ip ips f) (sym h.found ∙ e)
                  | inr (v, f) ↦
                      rw (addresses_valid ip ips f) (rightmost_later v _ (sym h.found ∙ e))
                ]);
            valid = λ k. absurd (cc (rw step at k, e));
          }

      Scanned-here : (scan l nets (reversed ips) []).0 ≡ none → Scanned (ip ∷ ips)
      unfolding reversed scan
      Scanned-here e =
          let step = scan_missed (reversed ips) ip [] e in
          let acc = (scan l nets (reversed ips) []).1 in
          let miss = sym h.found ∙ e in
          elim (Option-cases (validate_ip l ip)) [
            | inl f ↦
                let all = step ∙ scan_invalid ip [] acc f in
                record {
                  found = ap (λ p. p.0) all ∙ sym (rw (addresses_invalid ip ips f) miss);
                  valid =
                      λ k. ap (λ p. last p.1) all ∙ (rw (addresses_invalid ip ips f) (h.valid e));
                }
            | inr (v, f) ↦ elim (Bool-cases (is_trusted_proxy l nets v)) [
              | inl t ↦
                  let all = step ∙ scan_trusted ip [] acc f t in
                  record {
                    found =
                        ap (λ p. p.0) all
                        ∙ sym (rw (addresses_valid ip ips f, rightmost_here v _ miss, t) refl);
                    valid = λ k.
                        ap (λ p. last p.1) all
                        ∙ last-append acc v
                        ∙ sym (rw (addresses_valid ip ips f) refl);
                  }
              | inr t ↦
                  let all = step ∙ scan_stops ip [] acc f t in
                  record {
                    found =
                        ap (λ p. p.0) all
                        ∙ sym (rw (addresses_valid ip ips f, rightmost_here v _ miss, t) refl);
                    valid = λ k. absurd (cc (ap (λ p. p.0) all, k));
                  }
            ]
          ]

    pub scanned : (ips : List String) → Scanned ips
    unfolding scan reversed rightmost addresses last
    scanned [] = record { found = refl; valid = λ h. refl }
    scanned (ip ∷ ips) = elim (Option-cases (scan l nets (reversed ips) []).0) [
      | inl e ↦ Scanned-here ip ips (scanned ips) e
      | inr (a, e) ↦ Scanned-later ip ips (scanned ips) e
    ]
