-- ===== src/Examples/Captures.antt =====
-- A short capture through the flow table of ingest/pcap_ingester.py.
use ai_cyber_threat_detector.Common.{
  ℕ, ◌≤◌, refl, true, some, List, [], ◌∷◌, String, length, All, arith,
}
use ai_cyber_threat_detector.Stream.Detect.{late}
use ai_cyber_threat_detector.Ingest.Flows.{
  Segment, Packet, Capture, max_flows, read_packets, ingest_pcap,
}
use ai_cyber_threat_detector.Ingest.Table.{length-read_packets}
use ai_cyber_threat_detector.Ingest.Silent.{IsSilent, ingest_pcap-IsSilent}

abbrev request : Segment
request = record {
  src_ip = "10.0.0.5";
  dst_ip = "198.51.100.1";
  proto = "tcp";
  src_port = 40000;
  dst_port = 443;
}

abbrev packets : List Packet
packets =
    record { size = 60; time = 1; segment = some request }
    ∷ record { size = 70000; time = 2; segment = some request }
    ∷ []

abbrev str_int : ℕ → String
str_int n = "1"

abbrev start : Capture
start = record { flows = []; packet_count = 0; sent = [] }

length-read_packets_example :
    length (read_packets str_int (λ d. 100) (λ d. true) packets start).flows ≤ max_flows
length-read_packets_example =
    length-read_packets str_int (λ d. 100) (λ d. true) packets start (omega arith)

ingest_pcap-IsSilent_example :
    All
      (IsSilent [] (λ v. "?") (λ f q. late))
      (ingest_pcap str_int (λ d. 100) (λ d. true) packets start).sent
ingest_pcap-IsSilent_example =
    ingest_pcap-IsSilent [] (λ v. "?") (λ f q. late) str_int (λ d. 100) (λ d. true) packets start
      refl
