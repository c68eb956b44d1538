-- ===== src/Ingest/Tally.antt =====
-- What the flow table of ingest/pcap_ingester.py counts.
use ai_cyber_threat_detector.Common.{ℕ, ◌+◌, ◌≡◌, refl, String, Option-cases, inl, inr, arith}
use ai_cyber_threat_detector.Common.Dict
use ai_cyber_threat_detector.Common.Dict.{Dict, tally, tally-put}
use ai_cyber_threat_detector.Ingest.Flows.{
  Segment, Flow, new_flow, add_reply, add_packet, track, flow_key, reverse_key,
}

abbrev pub packets_of : Flow → ℕ
packets_of f = f.orig_pkts + f.resp_pkts

abbrev pub bytes_of : Flow → ℕ
bytes_of f = f.orig_bytes + f.resp_bytes

module _ (str_int : ℕ → String) (n t : ℕ) (s : Segment) (d : Dict Flow) where
  tally-track_by :
      (m : Flow → ℕ) (more : ℕ)
      → m (new_flow t s) ≡ 0
      → ((f : Flow) → m (add_reply n t f) ≡ m f + more)
      → ((f : Flow) → m (add_packet n t f) ≡ m f + more)
      → tally m (track str_int n t s d) ≡ tally m d + more
  unfolding track
  tally-track_by m more fresh reply own = elim (Option-cases (Dict.get d (reverse_key str_int s))) [
    | inr (f, e) ↦
        let moved = rw e at (tally-put m d (reverse_key str_int s) (add_reply n t f)) in
        rw (e, track) (omega (arith, moved, reply f))
    | inl e ↦ elim (Option-cases (Dict.get d (flow_key str_int s))) [
      | inl g ↦
          let moved =
            rw g at (tally-put m d (flow_key str_int s) (add_packet n t (new_flow t s))) in
          rw (e, g, track) (omega (arith, moved, fresh, own (new_flow t s)))
      | inr (f, g) ↦
          let moved = rw g at (tally-put m d (flow_key str_int s) (add_packet n t f)) in
          rw (e, g, track) (omega (arith, moved, own f))
    ]
  ]

  -- A packet is counted once, in one flow: whether it opens a flow, goes on with one or answers one, the packets of all flows
  -- together are one more than before, and their bytes are more by its length.
  pub tally-track :
      (tally packets_of (track str_int n t s d) ≡ tally packets_of d + 1)
      × (tally bytes_of (track str_int n t s d) ≡ tally bytes_of d + n)
  unfolding add_reply add_packet
  tally-track = (
    tally-track_by packets_of 1 refl (λ f. omega arith) (λ f. omega arith),
    tally-track_by bytes_of n refl (λ f. omega arith) (λ f. omega arith),
  )
