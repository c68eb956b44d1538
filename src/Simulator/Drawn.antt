-- ===== src/Simulator/Drawn.antt =====
-- What `random` and `uuid` promise of the draws of ingest/simulator.py: the ranges of `randint`, the lists of `choice`, 32 digits of a UUID.
use Prim.Native.String.{count}
use mathlib.Core.List.{Memᴰ}
use ai_cyber_threat_detector.Common.{ℕ, ◌≤◌, ◌≡◌, List, [], ◌∷◌, String}
use ai_cyber_threat_detector.Simulator.Traffic.{Draws}

abbrev pub IsBetween : ℕ → ℕ → ℕ → Type 0
IsBetween lo hi n = (lo ≤ n) × (n ≤ hi)

abbrev pub common_ports : List ℕ
common_ports = 80 ∷ 443 ∷ 53 ∷ []

abbrev pub beacon_ports : List ℕ
beacon_ports = 4444 ∷ 8080 ∷ 1337 ∷ []

abbrev pub normal_domains : List String
normal_domains = "google.com" ∷ "apple.com" ∷ "cloudflare.com" ∷ []

pub record IsDrawn (d : Draws) : Type 0 where
  pub port : Memᴰ d.dst_port common_ports
  pub up : IsBetween 100 5000 d.orig_bytes
  pub down : IsBetween 100 50000 d.resp_bytes
  pub pkts : IsBetween 5 50 d.orig_pkts
  pub scan : IsBetween 1 3 d.scan_pkts
  pub flood : IsBetween 15000 50000 d.flood_pkts
  pub upload : IsBetween 6000000 15000000 d.upload_bytes
  pub reply : IsBetween 100 5000 d.upload_reply
  pub beacon : IsBetween 60 120 d.beacon_bytes
  pub answer : IsBetween 60 120 d.beacon_reply
  pub contact : Memᴰ d.beacon_port beacon_ports
  pub a : count d.hex_a ≡ 32
  pub b : count d.hex_b ≡ 32
  pub c : count d.hex_c ≡ 32
  pub domain : Memᴰ d.normal_domain normal_domains
