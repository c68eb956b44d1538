-- ===== src/Access/Address.antt =====
-- The trusted proxies and `get_remote_address` of api/deps.py. Python's `ipaddress` is a parameter.
use Prim.Native.String.{count}
use ai_cyber_threat_detector.Common.{
  ℕ, ◌-◌, ◌≡◌, Bool, false, ◌&&◌, ◌||◌, Option, none, some, List, [], ◌∷◌, ◌++◌, String, str_eq,
  if◌then◌else◌, ltb, ◌==◌, or_else, length, drop, map,
}
use ai_cyber_threat_detector.Common.Text.{strip, split, is_comma}

-- What the code uses of `ipaddress`; `none` is its ValueError. An address reads back from its text.
pub record IpLibrary : Type 1 where
  pub Addr : Type 0
  pub Net : Type 0
  pub ip_address : String → Option Addr
  pub str_addr : Addr → String
  -- with strict=False
  pub ip_network : String → Option Net
  pub version : Net → ℕ
  pub prefixlen : Net → ℕ
  pub str_net : Net → String
  -- `addr in net`
  pub holds : Net → Addr → Bool
  pub ip_address-str_addr : (a : Addr) → ip_address (strip (str_addr a)) ≡ some a

abbrev pub max_xff_header_len : ℕ
max_xff_header_len = 2048

abbrev pub max_xff_hops : ℕ
max_xff_hops = 20

-- what `get_remote_address` reads of a request
pub record Request : Type 0 where
  pub client_host : Option String
  pub forwarded_for : Option String
  pub real_ip : Option String

unfoldable pub nonempty : List String → List String
nonempty [] = []
nonempty (ip ∷ ips) = let rest = nonempty ips in if str_eq ip "" then rest else ip ∷ rest

-- the last hops of the header, stripped
unfoldable pub hops : String → List String
hops forwarded =
    let ips = nonempty (map strip (split is_comma forwarded)) in
    drop (length ips - max_xff_hops) ips

unfoldable pub reversed : List String → List String
reversed [] = []
reversed (x ∷ xs) = reversed xs ++ x ∷ []

-- `xs[-1]`, if there is one
unfoldable pub last : List String → Option String
last [] = none
last (x ∷ xs) = some (or_else (last xs) x)

-- a header that is present, and neither empty nor too long
unfoldable pub usable : Option String → Option String
usable none = none
usable (some forwarded) =
    if str_eq forwarded "" || ltb max_xff_header_len (count forwarded) then none else some forwarded

module _ (l : IpLibrary) where
  open l use {Net, Addr, ip_address, str_addr, ip_network, version, prefixlen, str_net, holds}

  unfoldable pub is_too_broad : Net → Bool
  is_too_broad net =
      ((version net == 4) && ltb (prefixlen net) 8)
      || (((version net == 6) && ltb (prefixlen net) 64)
          || (str_eq (str_net net) "0.0.0.0/0" || str_eq (str_net net) "::/0"))

  -- one round of `for entry in _trusted_proxies_raw.split(",")`
  unfoldable pub add_network : String → List Net → List Net
  add_network entry nets = elim (ip_network entry) [
    | none ↦ nets
    | some net ↦ if str_eq entry "" || is_too_broad net then nets else net ∷ nets
  ]

  unfoldable pub add_networks : List String → List Net
  add_networks [] = []
  add_networks (entry ∷ entries) = add_network (strip entry) (add_networks entries)

  unfoldable pub trusted_ingress_networks : String → List Net
  trusted_ingress_networks raw = add_networks (split is_comma raw)

  unfoldable pub validate_ip : String → Option String
  validate_ip ip_str = elim (ip_address (strip ip_str)) [
    | none ↦ none
    | some addr ↦ some (str_addr addr)
  ]

  unfoldable pub holds_any : List Net → Addr → Bool
  holds_any [] addr = false
  holds_any (net ∷ nets) addr = holds net addr || holds_any nets addr

  unfoldable pub from_real_ip : Option String → String → String
  from_real_ip none client_ip = client_ip
  from_real_ip (some real_ip) client_ip =
      if str_eq real_ip "" then client_ip else or_else (validate_ip real_ip) client_ip

  module _ (nets : List Net) where
    unfoldable pub is_trusted_proxy : String → Bool
    is_trusted_proxy ip = elim (ip_address (strip ip)) [
      | none ↦ false
      | some addr ↦ holds_any nets addr
    ]

    -- `for ip in reversed(ips)`: the address that the loop returns, if it does, and `valid_ips`
    unfoldable pub scan : List String → List String → Option String × List String
    scan [] valid_ips = (none, valid_ips)
    scan (ip ∷ ips) valid_ips = elim (validate_ip ip) [
      | none ↦ scan ips valid_ips
      | some valid ↦
          let rest = scan ips (valid_ips ++ valid ∷ []) in
          if is_trusted_proxy valid then rest else (some valid, valid_ips ++ valid ∷ [])
    ]

    unfoldable pub from_forwarded : String → String → String
    from_forwarded forwarded client_ip =
        let (found, valid_ips) = scan (reversed (hops forwarded)) [] in
        or_else found (or_else (last valid_ips) client_ip)

    unfoldable pub get_remote_address : Request → String
    get_remote_address request =
        let client_ip =
          or_else (validate_ip (or_else request.client_host "127.0.0.1")) "127.0.0.1" in
        if is_trusted_proxy client_ip
        then elim (usable request.forwarded_for) [
          | some forwarded ↦ from_forwarded forwarded client_ip
          | none ↦ from_real_ip request.real_ip client_ip
        ]
        else client_ip
