-- ===== src/Ingest/Flows.antt =====
-- The flow table of `ingest_pcap` in ingest/pcap_ingester.py. Times are whole numbers of the capture's unit. What scapy
-- reads of a packet is given, and so is whether the producer takes a payload.
use Prim.Native.String.{◌++◌}
use ai_cyber_threat_detector.Common.{
  ℕ, ◌+◌, ◌-◌, ◌*◌, ◌%◌, Bool, true, false, not, ◌&&◌, Option, none, some, List, [], ◌∷◌, String,
  if◌then◌else◌, ltb, leb, ◌==◌, length, take, or_else,
}
use ai_cyber_threat_detector.Common.{◌++◌ as ◌⧺◌}
use ai_cyber_threat_detector.Common.Dict
use ai_cyber_threat_detector.Common.Dict.{Dict}
use ai_cyber_threat_detector.Common.Int.{ℤ, pos, negsuc}
use ai_cyber_threat_detector.Detection.Event.{Value, int, float, text}

-- a TCP or UDP segment
pub record Segment : Type 0 where
  pub src_ip : String
  pub dst_ip : String
  pub proto : String
  pub src_port : ℕ
  pub dst_port : ℕ

-- `segment` is none without IP, or with another layer on it
pub record Packet : Type 0 where
  pub size : ℕ
  pub time : ℕ
  pub segment : Option Segment

pub record Flow : Type 0 where
  pub start_time : ℕ
  pub orig_pkts : ℕ
  pub orig_bytes : ℕ
  pub resp_pkts : ℕ
  pub resp_bytes : ℕ
  pub duration : ℤ
  pub segment : Segment

abbrev pub max_flows : ℕ
max_flows = 50000

abbrev pub max_packet_bytes : ℕ
max_packet_bytes = 65535

abbrev pub max_payload_bytes : ℕ
max_payload_bytes = 5 * 1024 * 1024

unfoldable pub elapsed : (pkt_time start_time : ℕ) → ℤ
elapsed pkt_time start_time =
    if leb start_time pkt_time
    then pos (pkt_time - start_time)
    else negsuc (start_time - pkt_time - 1)

abbrev pub new_flow : ℕ → Segment → Flow
new_flow pkt_time segment = record {
  start_time = pkt_time;
  orig_pkts = 0;
  orig_bytes = 0;
  resp_pkts = 0;
  resp_bytes = 0;
  duration = pos 0;
  segment = segment;
}

unfoldable pub add_reply : ℕ → ℕ → Flow → Flow
add_reply pkt_len pkt_time f = record f {
  resp_pkts = f.resp_pkts + 1;
  resp_bytes = f.resp_bytes + pkt_len;
  duration = elapsed pkt_time f.start_time;
}

unfoldable pub add_packet : ℕ → ℕ → Flow → Flow
add_packet pkt_len pkt_time f = record f {
  orig_pkts = f.orig_pkts + 1;
  orig_bytes = f.orig_bytes + pkt_len;
  duration = elapsed pkt_time f.start_time;
}

-- the payload of a flow; the flows that leave the table are sent without their start time
unfoldable pub payload_of : (with_start : Bool) → Flow → Dict Value
payload_of with_start f =
    let rest : Dict Value =
      ("orig_pkts", int (pos f.orig_pkts))
      ∷ ("orig_bytes", int (pos f.orig_bytes))
      ∷ ("resp_pkts", int (pos f.resp_pkts))
      ∷ ("resp_bytes", int (pos f.resp_bytes))
      ∷ ("duration", int f.duration)
      ∷ ("id.orig_h", text f.segment.src_ip)
      ∷ ("id.orig_p", int (pos f.segment.src_port))
      ∷ ("id.resp_h", text f.segment.dst_ip)
      ∷ ("id.resp_p", int (pos f.segment.dst_port))
      ∷ ("proto", text f.segment.proto)
      ∷ ("service", text "unknown")
      ∷ ("conn_state", text "SF")
      ∷ [] in
    if with_start then ("start_time", float (f.start_time == 0) (pos f.start_time)) ∷ rest else rest

-- sorted(flows.items(), key=start_time), which keeps the order of equal times
unfoldable pub insert_oldest : String × Flow → List (String × Flow) → List (String × Flow)
insert_oldest e [] = e ∷ []
insert_oldest e (x ∷ xs) =
    let rest = insert_oldest e xs in
    if leb e.1.start_time x.1.start_time then e ∷ x ∷ xs else x ∷ rest

unfoldable pub oldest_first : Dict Flow → List (String × Flow)
unfolding insert_oldest
oldest_first [] = []
oldest_first (e ∷ flows) = insert_oldest e (oldest_first flows)

-- the table, the number of packets read, and what was sent
pub record Capture : Type 0 where
  pub flows : Dict Flow
  pub packet_count : ℕ
  pub sent : List (Dict Value)

unfoldable pub remove_all : List (String × Flow) → Dict Flow → Dict Flow
remove_all [] flows = flows
remove_all ((key, f) ∷ evicted) flows = remove_all evicted (Dict.remove flows key)

-- `str_int` is `str`
module _ (str_int : ℕ → String) where
  unfoldable pub endpoint : String → ℕ → String
  endpoint ip port = ip ++ (":" ++ str_int port)

  unfoldable pub flow_key : Segment → String
  flow_key s =
      endpoint s.src_ip s.src_port ++ ("-" ++ (endpoint s.dst_ip s.dst_port ++ ("-" ++ s.proto)))

  unfoldable pub reverse_key : Segment → String
  reverse_key s =
      endpoint s.dst_ip s.dst_port ++ ("-" ++ (endpoint s.src_ip s.src_port ++ ("-" ++ s.proto)))

  -- the packet belongs to the flow that it answers, or to its own
  unfoldable pub track : ℕ → ℕ → Segment → Dict Flow → Dict Flow
  unfolding add_reply add_packet flow_key reverse_key
  track pkt_len pkt_time s flows = elim (Dict.get flows (reverse_key s)) [
    | some f ↦ Dict.put flows (reverse_key s) (add_reply pkt_len pkt_time f)
    | none ↦
        Dict.put flows (flow_key s) (
          add_packet pkt_len pkt_time (or_else (Dict.get flows (flow_key s)) (new_flow pkt_time s)))
  ]

-- `size_of` is the length of a payload's JSON, `accepts` whether the producer takes it
module _ (size_of : Dict Value → ℕ) (accepts : Dict Value → Bool) where
  -- a payload that is too large, or that the producer refuses, is given up
  unfoldable pub emit_flow : Dict Value → List (Dict Value) → List (Dict Value)
  emit_flow payload sent =
      if not (ltb max_payload_bytes (size_of payload)) && accepts payload
      then sent ⧺ payload ∷ []
      else sent

  unfoldable pub emit_flows : Bool → Dict Flow → List (Dict Value) → List (Dict Value)
  emit_flows with_start [] sent = sent
  emit_flows with_start ((key, f) ∷ flows) sent =
      emit_flows with_start flows (emit_flow (payload_of with_start f) sent)

  -- every 500 packets the flows are sent as they stand
  unfoldable pub emit_periodically : Capture → Capture
  emit_periodically c =
      if c.packet_count % 500 == 0 then record c { sent = emit_flows true c.flows c.sent } else c

  -- over the cap the oldest flows are sent one last time and leave
  unfoldable pub evict_oldest : Capture → Capture
  unfolding remove_all
  evict_oldest c =
      let evicted = take (length c.flows - max_flows) (oldest_first c.flows) in
      if ltb max_flows (length c.flows)
      then record c { flows = remove_all evicted c.flows; sent = emit_flows false evicted c.sent }
      else c

module _ (str_int : ℕ → String) (size_of : Dict Value → ℕ) (accepts : Dict Value → Bool) where
  unfoldable pub read_packet : Packet → Capture → Capture
  read_packet pkt c =
      let counted = record c { packet_count = c.packet_count + 1 } in
      if ltb max_packet_bytes pkt.size then counted else (elim pkt.segment [
        | none ↦ counted
        | some s ↦ evict_oldest size_of accepts (
            emit_periodically size_of accepts
              (record counted { flows = track str_int pkt.size pkt.time s c.flows }))
      ])

  unfoldable pub read_packets : List Packet → Capture → Capture
  read_packets [] c = c
  read_packets (pkt ∷ packets) c = read_packets packets (read_packet pkt c)

  -- at the end of the capture every flow that is left is sent
  unfoldable pub ingest_pcap : List Packet → Capture → Capture
  ingest_pcap packets c =
      let c' = read_packets packets c in
      record c' { sent = emit_flows size_of accepts false c'.flows c'.sent }
