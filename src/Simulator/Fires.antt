-- ===== src/Simulator/Fires.antt =====
-- When the rules of inference/rules.py fire on the flows and queries of ingest/simulator.py, and when none does.
use mathlib.Core.List.{Memᴰ}
use Prim.Native.String.{count}
use ai_cyber_threat_detector.Common.{
  ℕ, ◌≤◌, ◌<◌, ◌≡◌, refl, Bool, true, false, not, ◌&&◌, Option, some, List, [], ◌++◌, String, ◌==◌,
  ltb, leb, arith, Bool-cases, inl, inr, contains, Mem-left, Mem-right, lt→ltb, str_eq,
}
use ai_cyber_threat_detector.Common.Int.{ℤ, pos}
use ai_cyber_threat_detector.Detection.Event.{Value, text}
use ai_cyber_threat_detector.Detection.Rules.{
  Alert, ddos_rule, c2_rule, ja4_rule, recon_rule, exfil_rule, tunnelling_rule, dga_rule,
  conn_alerts, ddos_alert, between,
}
use ai_cyber_threat_detector.Simulator.Drawn.{IsBetween, common_ports, beacon_ports}

abbrev pub HasClass : String → List Alert → Type 0
HasClass s alerts = (a : Alert) × (a.threat_class ≡ s) × Memᴰ a alerts

pub HasClass-left : (s : String) (xs ys : List Alert) → HasClass s xs → HasClass s (xs ++ ys)
HasClass-left s xs ys (a, e, m) = (a, e, Mem-left a xs ys m)

HasClass-right : (s : String) (xs ys : List Alert) → HasClass s ys → HasClass s (xs ++ ys)
HasClass-right s xs ys (a, e, m) = (a, e, Mem-right a xs ys m)

pub ddos-HasClass : (s : Option Value) (n : ℕ) → 15000 ≤ n → HasClass "DDoS" (ddos_rule s (pos n))
unfolding ddos_rule ddos_alert
ddos-HasClass s n h = rw (lt→ltb 10000 n (omega (arith, h))) (_, refl, Memᴰ.head refl)

pub recon-HasClass :
    (n : ℕ) (port : Option Value)
    → n ≤ 3
    → HasClass "Reconnaissance" (recon_rule (some (text "S0")) (pos n) port)
unfolding recon_rule
recon-HasClass n port h = rw (lt→ltb n 5 (omega (arith, h))) (_, refl, Memᴰ.head refl)

pub exfil-HasClass :
    (up down : ℕ)
    → 6000000 ≤ up
    → down ≤ 5000
    → HasClass "Data Exfiltration" (exfil_rule (pos up) (pos down))
unfolding exfil_rule
exfil-HasClass up down h k =
    rw (lt→ltb 5000000 up (omega (arith, h)), lt→ltb down 10000 (omega (arith, k)))
      (_, refl, Memᴰ.head refl)

pub ja4-HasClass :
    (malicious : List String)
    → contains "t13d000000_rare_fingerprint" malicious ≡ true
    → HasClass "Encrypted-Traffic Malware" (ja4_rule malicious "t13d000000_rare_fingerprint")
unfolding ja4_rule
ja4-HasClass malicious h = rw h (_, refl, Memᴰ.head refl)

beacon_port :
    (port : ℕ)
    → Memᴰ port beacon_ports
    → ((port == 80) ≡ false) × ((port == 443) ≡ false) × ((port == 53) ≡ false)
beacon_port port (Memᴰ.head e) = rw e (refl, refl, refl)
beacon_port port (Memᴰ.tail (Memᴰ.head e)) = rw e (refl, refl, refl)
beacon_port port (Memᴰ.tail (Memᴰ.tail (Memᴰ.head e))) = rw e (refl, refl, refl)
beacon_port port (Memᴰ.tail (Memᴰ.tail (Memᴰ.tail m))) = elim m [ ]

-- a rule with a condition that one of its parts refutes
barred : (x y a b c : Bool) → (a && (b && c)) ≡ false → (x && (y && a && b && c)) ≡ false
barred x y a b c h = ground (arith, h)

common_port :
    (port : ℕ)
    → Memᴰ port common_ports
    → (not (port == 80) && (not (port == 443) && not (port == 53))) ≡ false
common_port port (Memᴰ.head e) = rw e refl
common_port port (Memᴰ.tail (Memᴰ.head e)) = rw e refl
common_port port (Memᴰ.tail (Memᴰ.tail (Memᴰ.head e))) = rw e refl
common_port port (Memᴰ.tail (Memᴰ.tail (Memᴰ.tail m))) = elim m [ ]

c2_quiet : (up down port : ℕ) → Memᴰ port common_ports → c2_rule (pos up) (pos down) (pos port) ≡ []
unfolding c2_rule
c2_quiet up down port m =
    rw
      (barred (between 50 (pos up) 150) (between 50 (pos down) 150) (not (port == 80))
        (not (port == 443)) (not (port == 53)) (common_port port m))
      refl

pub c2-HasClass :
    (up down port : ℕ)
    → IsBetween 60 120 up
    → IsBetween 60 120 down
    → Memᴰ port beacon_ports
    → HasClass "C2 Beaconing" (c2_rule (pos up) (pos down) (pos port))
unfolding c2_rule
c2-HasClass up down port h k m =
    rw
      (
        lt→ltb 50 up (omega (arith, h.0)),
        lt→ltb up 150 (omega (arith, h.1)),
        lt→ltb 50 down (omega (arith, k.0)),
        lt→ltb down 150 (omega (arith, k.1)),
        (beacon_port port m).0,
        (beacon_port port m).1,
        (beacon_port port m).2,
      )
      (_, refl, Memᴰ.head refl)

module _ (malicious : List String) (n port up down : ℕ) (target : Option Value) (ja4 : String) where
  -- No rule fires on an established flow of few packets to a usual port, unless its fingerprint is a malicious one.
  pub conn_alerts_quiet :
      n ≤ 50
      → Memᴰ port common_ports
      → up ≤ 5000
      → ja4_rule malicious ja4 ≡ []
      → conn_alerts malicious (some (text "SF")) (pos n) target (pos port) (pos up) (pos down) ja4
        ≡ []
  unfolding conn_alerts ddos_rule recon_rule exfil_rule
  conn_alerts_quiet h m k harmless =
      let calm : ltb 10000 n ≡ false = ground (arith, h) in
      let little : ltb 5000000 up ≡ false = ground (arith, k) in
      rw (calm, little) (rw (c2_quiet up down port m, harmless) refl)

pub tunnelling-HasClass :
    (query : String)
    → 60 < count query
    → HasClass "DGA / DNS Tunnelling" (tunnelling_rule query (some (text "TXT")))
unfolding tunnelling_rule
tunnelling-HasClass query h = rw (lt→ltb 60 (count query) h) (_, refl, Memᴰ.head refl)

pub dga_quiet : (query : String) (e n : ℕ) (infra : Bool) → n ≤ 15 → dga_rule query e n infra ≡ []
unfolding dga_rule
dga_quiet query e n infra h =
    let short : leb 16 n ≡ false = ground (arith, h) in
    elim (Bool-cases (ltb 3800 e)) [ inl b ↦ rw (b, short) refl | inr b ↦ rw b refl ]

pub tunnelling_quiet : (query : String) → tunnelling_rule query (some (text "A")) ≡ []
unfolding tunnelling_rule
tunnelling_quiet query = elim (Bool-cases (ltb 60 (count query))) [
  | inl b ↦ rw b refl
  | inr b ↦ rw b refl
]

-- where a rule stands in the run of the rules for `conn`
module _ (malicious : List String) (s : Option Value) (n : ℤ) (t : Option Value) (p up down : ℤ)
    (ja4 : String) where
  pub from_ddos :
      (c : String)
      → HasClass c (ddos_rule s n)
      → HasClass c (conn_alerts malicious s n t p up down ja4)
  unfolding conn_alerts
  from_ddos c h = HasClass-left c (ddos_rule s n) _ h

  pub from_c2 :
      (c : String)
      → HasClass c (c2_rule up down p)
      → HasClass c (conn_alerts malicious s n t p up down ja4)
  unfolding conn_alerts
  from_c2 c h = HasClass-right c (ddos_rule s n) _ (HasClass-left c (c2_rule up down p) _ h)

  pub from_ja4 :
      (c : String)
      → HasClass c (ja4_rule malicious ja4)
      → HasClass c (conn_alerts malicious s n t p up down ja4)
  unfolding conn_alerts
  from_ja4 c h =
      HasClass-right c (ddos_rule s n) _
        (HasClass-right c (c2_rule up down p) _ (HasClass-left c (ja4_rule malicious ja4) _ h))

  pub from_recon :
      (c : String)
      → HasClass c (recon_rule s n t)
      → HasClass c (conn_alerts malicious s n t p up down ja4)
  unfolding conn_alerts
  from_recon c h = HasClass-right c (ddos_rule s n) _ (
      HasClass-right c (c2_rule up down p) _
        (HasClass-right c (ja4_rule malicious ja4) _ (HasClass-left c (recon_rule s n t) _ h)))

  pub from_exfil :
      (c : String)
      → HasClass c (exfil_rule up down)
      → HasClass c (conn_alerts malicious s n t p up down ja4)
  unfolding conn_alerts
  from_exfil c h = HasClass-right c (ddos_rule s n) _ (
      HasClass-right c (c2_rule up down p) _
        (HasClass-right c (ja4_rule malicious ja4) _ (HasClass-right c (recon_rule s n t) _ h)))

pub ja4_missing : (malicious : List String) → ja4_rule malicious "" ≡ []
unfolding ja4_rule
ja4_missing malicious = refl

pub ja4_benign :
    (malicious : List String) (ja4 : String)
    → contains ja4 malicious ≡ false
    → ja4_rule malicious ja4 ≡ []
unfolding ja4_rule
ja4_benign malicious ja4 h = elim (Bool-cases (str_eq ja4 "")) [
  | inl e ↦ rw e refl
  | inr e ↦ rw (e, h) refl
]
