-- ===== src/Benchmark/Verdicts.antt =====
-- What the rules say of the records of scripts/benchmark_throughput.py.
use mathlib.Core.List.{Memᴰ}
use native.Mathlib.Nat.{div-mul-le_self}
use ai_cyber_threat_detector.Common.{
  ℕ, ◌/◌, ◌≡◌, refl, max, true, false, some, List, [], String, if◌then◌else◌, arith, contains,
}
use ai_cyber_threat_detector.Common.Dict
use ai_cyber_threat_detector.Common.Int.{pos}
use ai_cyber_threat_detector.Detection.Event.{Value, text}
use ai_cyber_threat_detector.Detection.Rules.{Alert, conn_alerts, conn_rules}
use ai_cyber_threat_detector.Simulator.Drawn.{IsBetween}
use ai_cyber_threat_detector.Simulator.Fires.{
  HasClass, ddos-HasClass, exfil-HasClass, ja4-HasClass, conn_alerts_quiet, ja4_benign, from_ddos,
  from_exfil, from_ja4,
}
use ai_cyber_threat_detector.Simulator.Verdicts.{evaluate}
use ai_cyber_threat_detector.Benchmark.Records.{
  Draw, conn_record, orig_b, resp_b, malicious_ja4, benign_ja4,
}

module _ (malicious : List String) (str_of : Value → String) (entropy : String → ℕ) where
  conn_record_alerts :
      (ts : ℕ) (uid : String) (d : Draw)
      → evaluate malicious str_of entropy (conn_record ts uid d)
        ≡ some (
            conn_alerts malicious
              (some (text "SF"))
              (pos (max 1 (orig_b d / 1400)))
              (Dict.get (conn_record ts uid d) "id.resp_p")
              (pos 443)
              (pos (orig_b d))
              (pos (resp_b d))
              (if d.rare then malicious_ja4 else benign_ja4))
  unfolding evaluate Dict.get conn_record conn_rules
  conn_record_alerts ts uid d = refl

  -- A large upload of the benchmark is found as exfiltration and, by its number of packets, as a flood; the malicious fingerprint is found too, and all
  -- other connections raise nothing.
  pub conn_record-HasClass :
      (ts : ℕ) (uid : String) (d : Draw)
      → contains malicious_ja4 malicious ≡ true
      → contains benign_ja4 malicious ≡ false
      → IsBetween 500 5000 d.up
      → (alerts : List Alert) × (evaluate malicious str_of entropy (conn_record ts uid d)
          ≡ some alerts)
        × (d.upload ≡ true → HasClass "Data Exfiltration" alerts × HasClass "DDoS" alerts)
        × (d.rare ≡ true → HasClass "Encrypted-Traffic Malware" alerts)
        × (d.upload ≡ false → d.rare ≡ false → alerts ≡ [])
  unfolding orig_b resp_b
  conn_record-HasClass ts uid d known unknown range = (
    _,
    conn_record_alerts ts uid d,
    (λ u. rw u (
      from_exfil malicious _ _ _ _ _ _ _ "Data Exfiltration"
          (exfil-HasClass 50000000 100 (omega arith) (omega arith)),
      from_ddos malicious _ _ _ _ _ _ _ "DDoS" (ddos-HasClass _ 35714 (omega arith)),
    )),
    (λ r.
        from_ja4 malicious _ _ _ _ _ _ _ "Encrypted-Traffic Malware"
          (rw r (ja4-HasClass malicious known))),
    (λ u r.
        rw (u, r)
          (conn_alerts_quiet malicious (max 1 (d.up / 1400)) 443 d.up _ _ benign_ja4
            (omega (arith, div-mul-le_self d.up 1400, range.1)) (Memᴰ.tail (Memᴰ.head refl)) range.1
            (ja4_benign malicious benign_ja4 unknown))),
  )
