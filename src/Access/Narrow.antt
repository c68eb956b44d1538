-- ===== src/Access/Narrow.antt =====
-- The networks that api/deps.py trusts as proxies are narrow ones.
use ai_cyber_threat_detector.Common.{
  ◌≡◌, ◌≤◌, Bool, true, false, ◌||◌, List, [], ◌∷◌, String, str_eq, Bool-cases, Option-cases, inl,
  inr, All, arith,
}
use ai_cyber_threat_detector.Common.Text.{strip}
use ai_cyber_threat_detector.Access.Address.{
  IpLibrary, is_too_broad, add_network, add_networks, trusted_ingress_networks,
}

-- neither as wide as seven bits of IPv4, nor as sixty-three of IPv6
pub record IsNarrow (l : IpLibrary) (net : IpLibrary.Net l) : Type 0 where
  pub ipv4 : IpLibrary.version l net ≡ 4 → 8 ≤ IpLibrary.prefixlen l net
  pub ipv6 : IpLibrary.version l net ≡ 6 → 64 ≤ IpLibrary.prefixlen l net

neither : (a b : Bool) → (a || b) ≡ false → b ≡ false
neither false b h = h
neither true b h = absurd (cc h)

module _ (l : IpLibrary) where
  narrow : (net : IpLibrary.Net l) → is_too_broad l net ≡ false → IsNarrow l net
  unfolding is_too_broad
  narrow net h = record { ipv4 = λ e. ground arith; ipv6 = λ e. ground arith }

  add_network-IsNarrow :
      (entry : String) (nets : List (IpLibrary.Net l))
      → All (IsNarrow l) nets
      → All (IsNarrow l) (add_network l entry nets)
  unfolding add_network
  add_network-IsNarrow entry nets h = elim (Option-cases (IpLibrary.ip_network l entry)) [
    | inl e ↦ rw (e, add_network) h
    | inr (net, e) ↦ elim (Bool-cases (str_eq entry "" || is_too_broad l net)) [
      | inl b ↦ rw (e, add_network) (rw b h)
      | inr b ↦ rw (e, add_network) (rw b (narrow net (neither (str_eq entry "") _ b), h))
    ]
  ]

  add_networks-IsNarrow : (entries : List String) → All (IsNarrow l) (add_networks l entries)
  unfolding add_networks
  add_networks-IsNarrow [] = tt
  add_networks-IsNarrow (entry ∷ entries) =
      add_network-IsNarrow (strip entry) (add_networks l entries) (add_networks-IsNarrow entries)

  -- Whatever TRUSTED_PROXY_CIDRS holds, no trusted network is broader than an IPv4 /8 or an IPv6 /64.
  pub trusted_ingress_networks-IsNarrow :
      (raw : String) → All (IsNarrow l) (trusted_ingress_networks l raw)
  unfolding trusted_ingress_networks
  trusted_ingress_networks-IsNarrow raw = add_networks-IsNarrow _
