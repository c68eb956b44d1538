-- ===== src/Ingest/Silent.antt =====
-- The payloads of ingest/pcap_ingester.py in the handler of inference/stream_processor_faust.py.
use ai_cyber_threat_detector.Common.{
  ℕ, ◌≡◌, refl, Bool, true, false, not, ◌&&◌, none, List, [], ◌∷◌, String, ltb, All, All-append,
  Bool-cases, Option-cases, inl, inr, take, length, ◌==◌, ◌-◌, ◌%◌,
}
use ai_cyber_threat_detector.Common.Dict
use ai_cyber_threat_detector.Common.Dict.{Dict}
use ai_cyber_threat_detector.Detection.Event.{Value, is_text}
use ai_cyber_threat_detector.Detection.Features.{Features}
use ai_cyber_threat_detector.Detection.Rules.{evaluate_rules}
use ai_cyber_threat_detector.Stream.Detect.{DlAnswer, detections, dl_stage, asked_query}
use ai_cyber_threat_detector.Ingest.Flows.{
  Packet, Flow, Capture, max_flows, max_packet_bytes, max_payload_bytes, payload_of, emit_flow,
  emit_flows, emit_periodically, evict_oldest, oldest_first, read_packet, read_packets, ingest_pcap,
}

-- no event type, by which the handler would know what to evaluate
abbrev IsUntyped : Dict Value → Type 0
IsUntyped event = Dict.get event "event_type" ≡ none

payload_of-IsUntyped : (with_start : Bool) (f : Flow) → IsUntyped (payload_of with_start f)
unfolding payload_of Dict.get
payload_of-IsUntyped true f = refl
payload_of-IsUntyped false f = refl

module _ (size_of : Dict Value → ℕ) (accepts : Dict Value → Bool) where
  emit_flow-IsUntyped :
      (payload : Dict Value) (sent : List (Dict Value))
      → IsUntyped payload
      → All IsUntyped sent
      → All IsUntyped (emit_flow size_of accepts payload sent)
  unfolding emit_flow
  emit_flow-IsUntyped payload sent u h =
      elim (Bool-cases (not (ltb max_payload_bytes (size_of payload)) && accepts payload)) [
        | inl f ↦ rw f (All-append IsUntyped sent (payload ∷ []) h (u, tt))
        | inr f ↦ rw f h
      ]

  emit_flows-IsUntyped :
      (with_start : Bool) (flows : Dict Flow) (sent : List (Dict Value))
      → All IsUntyped sent
      → All IsUntyped (emit_flows size_of accepts with_start flows sent)
  unfolding emit_flows
  emit_flows-IsUntyped b [] sent h = h
  emit_flows-IsUntyped b ((k, f) ∷ flows) sent h =
      emit_flows-IsUntyped b flows _
        (emit_flow-IsUntyped (payload_of b f) sent (payload_of-IsUntyped b f) h)

  emit_periodically-IsUntyped :
      (c : Capture)
      → All IsUntyped c.sent
      → All IsUntyped (emit_periodically size_of accepts c).sent
  unfolding emit_periodically
  emit_periodically-IsUntyped c h = elim (Bool-cases (c.packet_count % 500 == 0)) [
    | inl f ↦ rw f (emit_flows-IsUntyped true c.flows c.sent h)
    | inr f ↦ rw f h
  ]

  evict_oldest-IsUntyped :
      (c : Capture) → All IsUntyped c.sent → All IsUntyped (evict_oldest size_of accepts c).sent
  unfolding evict_oldest
  evict_oldest-IsUntyped c h = elim (Bool-cases (ltb max_flows (length c.flows))) [
    | inl f ↦ rw f (
        emit_flows-IsUntyped false (take (length c.flows - max_flows) (oldest_first c.flows)) c.sent
          h)
    | inr f ↦ rw f h
  ]

module _ (str_int : ℕ → String) (size_of : Dict Value → ℕ) (accepts : Dict Value → Bool) where
  read_packet-IsUntyped :
      (pkt : Packet) (c : Capture)
      → All IsUntyped c.sent
      → All IsUntyped (read_packet str_int size_of accepts pkt c).sent
  unfolding read_packet
  read_packet-IsUntyped pkt c h = elim (Bool-cases (ltb max_packet_bytes pkt.size)) [
    | inl f ↦ rw f h
    | inr f ↦ elim (Option-cases pkt.segment) [
      | inl e ↦ rw (f, e, read_packet) h
      | inr (s, e) ↦
          rw (f, e, read_packet)
            (evict_oldest-IsUntyped size_of accepts _
              (emit_periodically-IsUntyped size_of accepts _ h))
    ]
  ]

  read_packets-IsUntyped :
      (packets : List Packet) (c : Capture)
      → All IsUntyped c.sent
      → All IsUntyped (read_packets str_int size_of accepts packets c).sent
  unfolding read_packets
  read_packets-IsUntyped [] c h = h
  read_packets-IsUntyped (pkt ∷ packets) c h =
      read_packets-IsUntyped packets (read_packet str_int size_of accepts pkt c)
        (read_packet-IsUntyped pkt c h)

module _ (malicious : List String) (str_of : Value → String)
    (predict : Features → String → DlAnswer) where
  -- no detection on an event, whatever its features
  abbrev pub IsSilent : Dict Value → Type 0
  IsSilent event = (features : Features) → detections malicious str_of predict event features ≡ []

  asked_query-IsUntyped : (event : Dict Value) → IsUntyped event → asked_query str_of event ≡ none
  unfolding asked_query is_text
  asked_query-IsUntyped event u = rw (u, asked_query) refl

  dl_stage-IsUntyped :
      (event : Dict Value) (features : Features)
      → IsUntyped event
      → dl_stage malicious str_of predict event features ≡ []
  unfolding dl_stage
  dl_stage-IsUntyped event features u = rw (asked_query-IsUntyped event u, dl_stage) refl

  IsUntyped-IsSilent : (event : Dict Value) → IsUntyped event → IsSilent event
  unfolding detections evaluate_rules is_text
  IsUntyped-IsSilent event u features = rw (dl_stage-IsUntyped event features u) (rw u refl)

  All-IsSilent : (events : List (Dict Value)) → All IsUntyped events → All IsSilent events
  All-IsSilent [] h = tt
  All-IsSilent (e ∷ events) h = (IsUntyped-IsSilent e h.0, All-IsSilent events h.1)

  -- Nothing that the packet ingester sends is ever detected: its payloads carry no event type, so the handler of the stream
  -- finds neither a rule to apply nor a query to judge, whatever the packets were. This is for
  -- a run that starts with nothing sent.
  pub ingest_pcap-IsSilent :
      (str_int : ℕ → String) (size_of : Dict Value → ℕ) (accepts : Dict Value → Bool)
      (packets : List Packet) (c : Capture)
      → c.sent ≡ []
      → All IsSilent (ingest_pcap str_int size_of accepts packets c).sent
  unfolding ingest_pcap
  ingest_pcap-IsSilent str_int size_of accepts packets c none_sent = All-IsSilent _ (
      emit_flows-IsUntyped size_of accepts false
        (read_packets str_int size_of accepts packets c).flows _
        (read_packets-IsUntyped str_int size_of accepts packets c (rw none_sent tt)))
