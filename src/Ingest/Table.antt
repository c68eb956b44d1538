-- ===== src/Ingest/Table.antt =====
-- The bound and the tally of the flow table of ingest/pcap_ingester.py.
use ai_cyber_threat_detector.Common.{
  ℕ, suc, ◌+◌, ◌-◌, ◌≤◌, ◌<◌, ◌≡◌, refl, ap, ◌∙◌, Bool, true, List, [], ◌∷◌, String, str_eq, ltb,
  leb, length, take, is_some, All, Bool-cases, Option-cases, inl, inr, arith, ltb→lt, eq_refl,
}
use ai_cyber_threat_detector.Common.Dict
use ai_cyber_threat_detector.Common.Dict.{Dict}
use ai_cyber_threat_detector.Detection.Event.{Value}
use ai_cyber_threat_detector.Ingest.Flows.{
  Segment, Packet, Flow, max_flows, max_packet_bytes, insert_oldest, oldest_first, Capture,
  emit_periodically, track, remove_all, evict_oldest, read_packet, read_packets, reverse_key,
}

module _ {V : Type 0} where
  length-put : (d : Dict V) (k : String) (v : V) → length (Dict.put d k v) ≤ suc (length d)
  unfolding Dict.put
  length-put [] k v = omega arith
  length-put ((j, w) ∷ d) k v = ground (arith, length-put d k v)

  length-remove : (d : Dict V) (k : String) → length (Dict.remove d k) ≤ length d
  unfolding Dict.remove
  length-remove [] k = omega arith
  length-remove ((j, w) ∷ d) k = ground (arith, length-remove d k)

  length-remove_less :
      (d : Dict V) (k : String)
      → is_some (Dict.get d k) ≡ true
      → length (Dict.remove d k) < length d
  unfolding Dict.remove Dict.get
  length-remove_less [] k h = absurd (cc h)
  length-remove_less ((j, w) ∷ d) k h = elim (Bool-cases (str_eq j k)) [
    | inl e ↦ rw e (omega (arith, length-remove d k))
    | inr e ↦ rw e (omega (arith, length-remove_less d k (rw e at h)))
  ]

abbrev IsIn : Dict Flow → String × Flow → Type 0
IsIn d e = is_some (Dict.get d e.0) ≡ true

length-insert_oldest :
    (e : String × Flow) (l : List (String × Flow)) → length (insert_oldest e l) ≡ suc (length l)
unfolding insert_oldest
length-insert_oldest e [] = refl
length-insert_oldest e (x ∷ xs) = ground (arith, length-insert_oldest e xs)

length-oldest_first : (d : Dict Flow) → length (oldest_first d) ≡ length d
unfolding oldest_first
length-oldest_first [] = refl
length-oldest_first (e ∷ d) =
    length-insert_oldest e (oldest_first d) ∙ ap suc (length-oldest_first d)

insert_oldest-IsIn :
    (d : Dict Flow) (e : String × Flow) (l : List (String × Flow))
    → IsIn d e
    → All (IsIn d) l
    → All (IsIn d) (insert_oldest e l)
unfolding insert_oldest
insert_oldest-IsIn d e [] h hs = (h, tt)
insert_oldest-IsIn d e (x ∷ xs) h hs = elim (Bool-cases (leb e.1.start_time x.1.start_time)) [
  | inl f ↦ rw f (h, hs)
  | inr f ↦ rw f (hs.0, insert_oldest-IsIn d e xs h hs.1)
]

-- what is in a table is in a longer one
IsIn-cons : (d : Dict Flow) (e x : String × Flow) → IsIn d x → IsIn (e ∷ d) x
unfolding Dict.get
IsIn-cons d (j, f) x h = ground (arith, h)

All-IsIn_cons :
    (d : Dict Flow) (e : String × Flow) (l : List (String × Flow))
    → All (IsIn d) l
    → All (IsIn (e ∷ d)) l
All-IsIn_cons d e [] h = tt
All-IsIn_cons d e (x ∷ xs) h = (IsIn-cons d e x h.0, All-IsIn_cons d e xs h.1)

IsIn-head : (d : Dict Flow) (e : String × Flow) → IsIn (e ∷ d) e
unfolding Dict.get
IsIn-head d (j, f) = rw (eq_refl j) refl

oldest_first-IsIn : (d : Dict Flow) → All (IsIn d) (oldest_first d)
unfolding oldest_first
oldest_first-IsIn [] = tt
oldest_first-IsIn (e ∷ d) =
    insert_oldest-IsIn (e ∷ d) e (oldest_first d) (IsIn-head d e)
      (All-IsIn_cons d e (oldest_first d) (oldest_first-IsIn d))

-- one flow too many: the oldest leaves
one_leaves :
    (d : Dict Flow) → length d ≡ 50001 → length (remove_all (take 1 (oldest_first d)) d) ≤ 50000
unfolding remove_all
one_leaves d n = go (oldest_first d) (length-oldest_first d) (oldest_first-IsIn d)
  where
    go :
        (l : List (String × Flow))
        → length l ≡ length d
        → All (IsIn d) l
        → length (remove_all (take 1 l) d) ≤ 50000
    go [] e h = absurd (omega (arith, e, n))
    go (x ∷ xs) e h = omega (arith, n, length-remove_less d x.0 h.0)

module _ (str_int : ℕ → String) (size_of : Dict Value → ℕ) (accepts : Dict Value → Bool) where
  length-evict_oldest :
      (c : Capture) → length c.flows ≤ 50001 → length (evict_oldest size_of accepts c).flows ≤ 50000
  unfolding evict_oldest
  length-evict_oldest c h = elim (Bool-cases (ltb max_flows (length c.flows))) [
    | inl f ↦
        let full : length c.flows ≡ 50001 = omega (arith, h, ltb→lt max_flows (length c.flows) f) in
        let one : length c.flows - max_flows ≡ 1 = omega (arith, full) in
        rw (f, one) (one_leaves c.flows full)
    | inr f ↦ rw f (ground (arith, f))
  ]

  length-track :
      (n t : ℕ) (s : Segment) (d : Dict Flow) → length (track str_int n t s d) ≤ suc (length d)
  unfolding track
  length-track n t s d = elim (Option-cases (Dict.get d (reverse_key str_int s))) [
    | inl e ↦ rw (e, track) (length-put d _ _)
    | inr (f, e) ↦ rw (e, track) (length-put d _ _)
  ]

  flows-emit_periodically : (c : Capture) → (emit_periodically size_of accepts c).flows ≡ c.flows
  unfolding emit_periodically
  flows-emit_periodically c = ground arith

  length-read_packet :
      (pkt : Packet) (c : Capture)
      → length c.flows ≤ 50000
      → length (read_packet str_int size_of accepts pkt c).flows ≤ 50000
  unfolding read_packet
  length-read_packet pkt c h = elim (Bool-cases (ltb max_packet_bytes pkt.size)) [
    | inl f ↦ rw f h
    | inr f ↦ elim (Option-cases pkt.segment) [
      | inl e ↦ rw (f, e, read_packet) h
      | inr (s, e) ↦
          rw (f, e, read_packet)
            (length-evict_oldest _ (
              rw
                (flows-emit_periodically (record c {
                  flows = track str_int pkt.size pkt.time s c.flows;
                  packet_count = c.packet_count + 1;
                }))
                (omega (arith, h, length-track pkt.size pkt.time s c.flows))))
    ]
  ]

  -- However long the capture, the table never holds more than 50000 flows between two packets, if it did not before.
  pub length-read_packets :
      (packets : List Packet) (c : Capture)
      → length c.flows ≤ max_flows
      → length (read_packets str_int size_of accepts packets c).flows ≤ max_flows
  unfolding read_packets
  length-read_packets [] c h = h
  length-read_packets (pkt ∷ packets) c h =
      length-read_packets packets (read_packet str_int size_of accepts pkt c)
        (length-read_packet pkt c h)
