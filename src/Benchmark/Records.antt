-- ===== src/Benchmark/Records.antt =====
-- The records of scripts/benchmark_throughput.py. What `random` gives is drawn beforehand, times are in ten-thousandths of a second.
use Prim.Native.String.{◌++◌}
use ai_cyber_threat_detector.Common.{
  ℕ, ◌+◌, ◌/◌, max, Bool, false, List, [], ◌∷◌, String, if◌then◌else◌, ltb,
}
use ai_cyber_threat_detector.Common.Dict.{Dict}
use ai_cyber_threat_detector.Common.Int.{pos}
use ai_cyber_threat_detector.Detection.Event.{Value, float, text}
use ai_cyber_threat_detector.Simulator.Traffic.{number}

-- the draws of a record; `dga`, `upload` and `rare` are the tests on `random.random()`
pub record Draw : Type 0 where
  pub is_dns : Bool
  pub src : String
  pub dst : String
  pub dga : Bool
  pub label : String
  pub domain : String
  pub upload : Bool
  pub up : ℕ
  pub down : ℕ
  pub duration : ℕ
  pub rare : Bool

abbrev pub malicious_ja4 : String
malicious_ja4 = "t13d000000_rare_fingerprint"

abbrev pub benign_ja4 : String
benign_ja4 = "t13d1516h2_8daaf6152771_02713d6af862"

unfoldable pub orig_b : Draw → ℕ
orig_b d = if d.upload then 50000000 else d.up

unfoldable pub resp_b : Draw → ℕ
unfolding orig_b
resp_b d = if ltb 1000000 (orig_b d) then 100 else d.down

unfoldable pub dns_record : (ts : ℕ) → (uid : String) → Draw → Dict Value
dns_record ts uid d =
    ("event_type", text "dns")
    ∷ ("ts", float false (pos ts))
    ∷ ("uid", text uid)
    ∷ ("id.orig_h", text d.src)
    ∷ ("id.orig_p", number 53000)
    ∷ ("id.resp_h", text "8.8.8.8")
    ∷ ("id.resp_p", number 53)
    ∷ ("proto", text "udp")
    ∷ ("query", text (if d.dga then d.label ++ ".cc" else d.domain))
    ∷ ("qtype_name", text "A")
    ∷ []

unfoldable pub conn_record : (ts : ℕ) → (uid : String) → Draw → Dict Value
unfolding orig_b resp_b
conn_record ts uid d =
    ("event_type", text "conn")
    ∷ ("ts", float false (pos ts))
    ∷ ("uid", text uid)
    ∷ ("id.orig_h", text d.src)
    ∷ ("id.orig_p", number 55000)
    ∷ ("id.resp_h", text d.dst)
    ∷ ("id.resp_p", number 443)
    ∷ ("proto", text "tcp")
    ∷ ("duration", float false (pos d.duration))
    ∷ ("orig_bytes", number (orig_b d))
    ∷ ("resp_bytes", number (resp_b d))
    ∷ ("orig_pkts", number (max 1 (orig_b d / 1400)))
    ∷ ("resp_pkts", number (max 1 (resp_b d / 1400)))
    ∷ ("conn_state", text "SF")
    ∷ ("ja4", text (if d.rare then malicious_ja4 else benign_ja4))
    ∷ []

-- the loop from record `i` on; `uid_of` is the format of a number with seven digits
unfoldable pub generate_from :
    (uid_of : ℕ → String) → (t_base i : ℕ) → List Draw → List (Dict Value)
unfolding dns_record conn_record
generate_from uid_of t_base i [] = []
generate_from uid_of t_base i (d ∷ draws) =
    let uid = "Cbench" ++ uid_of i in
    (if d.is_dns then dns_record (t_base + i) uid d else conn_record (t_base + i) uid d)
    ∷ generate_from uid_of t_base (i + 1) draws

unfoldable pub generate_benchmark_records :
    (uid_of : ℕ → String) → (t_base : ℕ) → List Draw → List (Dict Value)
unfolding generate_from
generate_benchmark_records uid_of t_base draws = generate_from uid_of t_base 0 draws
