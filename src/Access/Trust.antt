-- ===== src/Access/Trust.antt =====
-- What the address that `get_remote_address` of api/deps.py returns can depend on, and which networks it trusts.
use ai_cyber_threat_detector.Common.{
  ◌≡◌, refl, true, Option, none, some, List, [], ◌∷◌, String, str_eq, or_else, Bool-cases,
  Option-cases, inl, inr, All,
}
use ai_cyber_threat_detector.Common.Text.{strip}
use ai_cyber_threat_detector.Access.Address.{
  IpLibrary, Request, hops, reversed, usable, validate_ip, is_trusted_proxy, scan, from_forwarded,
  from_real_ip, get_remote_address,
}
use ai_cyber_threat_detector.Access.Client.{
  peer, first, addresses, rightmost, scanned, addresses_invalid, addresses_valid, rightmost_later,
  rightmost_here,
}

module _ (l : IpLibrary) (nets : List (IpLibrary.Net l)) where
  from_forwarded_lem :
      (forwarded client_ip : String)
      → from_forwarded l nets forwarded client_ip
        ≡ or_else
            (rightmost l nets (addresses l (hops forwarded)))
            (or_else (first (addresses l (hops forwarded))) client_ip)
  unfolding from_forwarded
  from_forwarded_lem forwarded client_ip =
      let h = scanned l nets (hops forwarded) in
      elim (Option-cases (scan l nets (reversed (hops forwarded)) []).0) [
        | inl e ↦ simp (e, h.valid e, ← h.found)
        | inr (a, e) ↦ simp (e, ← h.found)
      ]

module _ (l : IpLibrary) (nets : List (IpLibrary.Net l)) (request : Request)
    (forwarded : String) where
  -- Behind a trusted proxy, a usable X-Forwarded-For decides: the caller is the rightmost of the last twenty hops that
  -- is an address and no trusted proxy; if all addresses are trusted proxies, the leftmost of them; and the
  -- peer itself if there is none.
  pub get_remote_address-forwarded :
      is_trusted_proxy l nets (peer l request) ≡ true
      → usable request.forwarded_for ≡ some forwarded
      → get_remote_address l nets request
        ≡ or_else
            (rightmost l nets (addresses l (hops forwarded)))
            (or_else (first (addresses l (hops forwarded))) (peer l request))
  unfolding get_remote_address
  get_remote_address-forwarded t u =
      simp (t, u) (from_forwarded_lem l nets forwarded (peer l request))

-- a text that reads as an address and is already in normal form
abbrev pub IsNormal : IpLibrary → String → Type 0
IsNormal l ip = validate_ip l ip ≡ some ip

module _ (l : IpLibrary) where
  validate_ip-IsNormal : (ip : String) {a : String} → validate_ip l ip ≡ some a → IsNormal l a
  unfolding validate_ip
  validate_ip-IsNormal ip {a} e = elim (Option-cases (IpLibrary.ip_address l (strip ip))) [
    | inl f ↦ absurd (cc (rw (f, validate_ip) at e))
    | inr (addr, f) ↦
        let same : a ≡ IpLibrary.str_addr l addr = cc (rw (f, validate_ip) at e) in
        rw same (rw (IpLibrary.ip_address-str_addr l addr, validate_ip) refl)
  ]

  addresses-IsNormal : (ips : List String) → All (IsNormal l) (addresses l ips)
  unfolding addresses
  addresses-IsNormal [] = tt
  addresses-IsNormal (ip ∷ ips) = elim (Option-cases (validate_ip l ip)) [
    | inl e ↦ rw (addresses_invalid l ip ips e) (addresses-IsNormal ips)
    | inr (v, e) ↦
        rw (addresses_valid l ip ips e) (validate_ip-IsNormal ip e, addresses-IsNormal ips)
  ]

  first-IsNormal :
      (as' : List String) (d : String)
      → All (IsNormal l) as'
      → IsNormal l d
      → IsNormal l (or_else (first as') d)
  first-IsNormal [] d h k = k
  first-IsNormal (a ∷ rest) d h k = h.0

  rightmost-IsNormal :
      (nets : List (IpLibrary.Net l)) (as' : List String) (d : String)
      → All (IsNormal l) as'
      → IsNormal l d
      → IsNormal l (or_else (rightmost l nets as') d)
  unfolding rightmost
  rightmost-IsNormal nets [] d h k = k
  rightmost-IsNormal nets (a ∷ rest) d h k =
      let later = rightmost-IsNormal nets rest d h.1 k in
      elim (Option-cases (rightmost l nets rest)) [
        | inl e ↦ elim (Bool-cases (is_trusted_proxy l nets a)) [
          | inl t ↦ rw (rightmost_here l nets a rest e, t) k
          | inr t ↦ rw (rightmost_here l nets a rest e, t) h.0
        ]
        | inr (b, e) ↦ rw (rightmost_later l nets a rest e) (rw e at later)
      ]

  or_else-IsNormal : (ip d : String) → IsNormal l d → IsNormal l (or_else (validate_ip l ip) d)
  or_else-IsNormal ip d k = elim (Option-cases (validate_ip l ip)) [
    | inl e ↦ rw e k
    | inr (a, e) ↦ rw e (validate_ip-IsNormal ip e)
  ]

  from_real_ip-IsNormal :
      (real_ip : Option String) (d : String) → IsNormal l d → IsNormal l (from_real_ip l real_ip d)
  unfolding from_real_ip
  from_real_ip-IsNormal none d k = k
  from_real_ip-IsNormal (some real_ip) d k = elim (Bool-cases (str_eq real_ip "")) [
    | inl e ↦ rw e k
    | inr e ↦ rw e (or_else-IsNormal real_ip d k)
  ]

-- Whatever the peer and the headers say, the address that requests are counted under is an address in normal
-- form, so one caller cannot spread over several spellings of it; the fallback 127.0.0.1 must be one.
pub get_remote_address-IsNormal :
    (l : IpLibrary) (nets : List (IpLibrary.Net l)) (request : Request)
    → IsNormal l "127.0.0.1"
    → IsNormal l (get_remote_address l nets request)
unfolding get_remote_address
get_remote_address-IsNormal l nets request home =
    let own = or_else-IsNormal l (or_else request.client_host "127.0.0.1") "127.0.0.1" home in
    elim (Bool-cases (is_trusted_proxy l nets (peer l request))) [
      | inr t ↦ rw t own
      | inl t ↦ elim (Option-cases (usable request.forwarded_for)) [
        | inl u ↦ rw (t, u) (from_real_ip-IsNormal l request.real_ip _ own)
        | inr (forwarded, u) ↦
            rw (t, u, from_forwarded_lem l nets forwarded (peer l request))
              (rightmost-IsNormal l nets _ _ (addresses-IsNormal l (hops forwarded))
                (first-IsNormal l _ _ (addresses-IsNormal l (hops forwarded)) own))
      ]
    ]
