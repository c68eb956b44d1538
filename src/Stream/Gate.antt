-- ===== src/Stream/Gate.antt =====
-- The gate of inference/schemas.py and the correlator behind it agree.
use Prim.Native.String.{count}
use ai_cyber_threat_detector.Common.{
  both, ◌≡◌, refl, ◌≤◌, ◌∙◌, ap, Bool, true, false, ◌&&◌, Option, none, some, List, [], ◌∷◌, String,
  str_eq, is_some, Bool-cases, Option-cases, inl, inr, arith, ltb, eq_iff, contains,
}
use ai_cyber_threat_detector.Common.Dict
use ai_cyber_threat_detector.Common.Dict.{Dict}
use ai_cyber_threat_detector.Common.Text.{strip}
use ai_cyber_threat_detector.Correlation.Scripts.{Call}
use ai_cyber_threat_detector.Correlation.Alert.{
  Alert as Correlated, correlate_call, key_name, dedup_name, safe_threat, sev_score,
  time_window_sec,
}
use ai_cyber_threat_detector.Detection.Event.{Value}
use ai_cyber_threat_detector.Stream.Schema.{
  Json, text, Shape, conforms, all_conform, entry_conforms, has_all, properties, required,
  check_ip_address, validate_alert, ip_address, string_or_null, null, flag, number, object,
}
use ai_cyber_threat_detector.Stream.Detect.{Finding, event_text}
use ai_cyber_threat_detector.Stream.Emit.{
  Env, Answers, raw_alert, alert_of, read_alert, text_at, text_or_null,
}

module _ (env : Env) where
  entry-conforms :
      (k : String) (v : Json) (shape : Shape)
      → entry_conforms env.ip_text env.is_date_time k v ≡ true
      → Dict.get properties k ≡ some shape
      → conforms env.ip_text env.is_date_time shape v ≡ true
  unfolding entry_conforms
  entry-conforms k v shape ok shaped = rw (shaped, entry_conforms) at ok

  -- each entry of an alert that conforms has the shape of its key
  conforms_at :
      (alert : Dict Json) (k : String) (v : Json) (shape : Shape)
      → all_conform env.ip_text env.is_date_time alert ≡ true
      → Dict.get alert k ≡ some v
      → Dict.get properties k ≡ some shape
      → conforms env.ip_text env.is_date_time shape v ≡ true
  unfolding all_conform Dict.get
  conforms_at [] k v shape ok at shaped = absurd (cc at)
  conforms_at ((j, u) ∷ alert) k v shape ok at shaped =
      let (first, rest) =
        both (entry_conforms env.ip_text env.is_date_time j u)
          (all_conform env.ip_text env.is_date_time alert) ok in
      elim (Bool-cases (str_eq j k)) [
        | inr e ↦ conforms_at alert k v shape rest (rw e at at) shaped
        | inl e ↦
            let same : j ≡ k = (eq_iff j k).0 e in
            let value : u ≡ v = cc (rw e at at) in
            rw (← value) (entry-conforms j u shape first (rw (← same) at shaped))
      ]

  ip_address-text :
      (v : Json)
      → conforms env.ip_text env.is_date_time ip_address v ≡ true
      → (s : String) × (t : String) × (v ≡ text s) × (env.ip_text s ≡ some t)
  unfolding conforms check_ip_address
  ip_address-text (text s) ok = elim (Option-cases (env.ip_text s)) [
    | inl e ↦ absurd (cc (rw e at ok))
    | inr (t, e) ↦ (s, t, refl, e)
  ]
  ip_address-text null ok = absurd (cc ok)
  ip_address-text (flag b) ok = absurd (cc ok)
  ip_address-text (number n) ok = absurd (cc ok)
  ip_address-text (object d) ok = absurd (cc ok)

  has-required :
      (keys : List String) (k : String) (alert : Dict Json)
      → has_all keys alert ≡ true
      → contains k keys ≡ true
      → (v : Json) × (Dict.get alert k ≡ some v)
  unfolding has_all
  has-required [] k alert h c = absurd (cc c)
  has-required (j ∷ keys) k alert h c =
      let (first, rest) = both (is_some (Dict.get alert j)) (has_all keys alert) h in
      elim (Bool-cases (str_eq k j)) [
        | inr e ↦ has-required keys k alert rest (rw e at c)
        | inl e ↦ elim (Option-cases (Dict.get alert j)) [
          | inl f ↦ absurd (cc (rw f at first))
          | inr (v, f) ↦ (v, ap (Dict.get alert) ((eq_iff k j).0 e) ∙ f)
        ]
      ]

  -- what the gate makes sure of the source address
  valid-source :
      (alert : Dict Json)
      → validate_alert env.ip_text env.is_date_time alert ≡ true
      → (s : String) × (t : String) × (Dict.get alert "source_ip" ≡ some (text s))
        × (env.ip_text s ≡ some t)
  unfolding validate_alert Dict.get
  valid-source alert ok =
      let (all, shaped) =
        both (has_all required alert) (all_conform env.ip_text env.is_date_time alert) ok in
      let (v, at) = has-required required "source_ip" alert all refl in
      let (s, t, is_text, e) =
        ip_address-text v (conforms_at alert "source_ip" v ip_address shaped at refl) in
      (s, t, at ∙ ap some is_text, e)

  source_ip-read_alert :
      (alert : Dict Json) (s : String)
      → Dict.get alert "source_ip" ≡ some (text s)
      → (read_alert env alert).source_ip ≡ s
  unfolding read_alert text_at
  source_ip-read_alert alert s at = rw (at, text_at) refl

  called_with :
      (a : Correlated) (t : String)
      → env.ip_text (strip a.source_ip) ≡ some t
      → ltb 45 (count t) ≡ false
      → (c : Call) × (correlate_call env.ip_text a ≡ some c) × (c.key_name ≡ key_name t)
  unfolding correlate_call
  called_with a t e within = (
    record {
      key_name = key_name t;
      dedup_name = dedup_name t (safe_threat a.threat_class);
      alert_json = a.json;
      window = time_window_sec;
      severity_score = sev_score a.severity;
      alert_id = a.alert_id;
      is_replay = a.is_replay;
    },
    rw (e, within, correlate_call) refl,
    refl,
  )

  -- the correlator calls the script with the keys of the alert's own address
  abbrev pub IsCalled : Dict Json → Type 0
  IsCalled alert =
      (s : String) × (t : String) × (c : Call) × (Dict.get alert "source_ip" ≡ some (text s))
      × (env.ip_text s ≡ some t)
      × (correlate_call env.ip_text (read_alert env alert) ≡ some c)
      × (c.key_name ≡ key_name t)

  -- An alert that passes the gate is one the correlator accepts: if its source address has no spaces around it, and
  -- Python's text of that address has at most 45 characters, then the correlator calls the script with the key of that
  -- address.
  pub validate_alert-correlate_call :
      (alert : Dict Json)
      → validate_alert env.ip_text env.is_date_time alert ≡ true
      → ((s : String) → Dict.get alert "source_ip" ≡ some (text s) → strip s ≡ s)
      → ((s t : String)
          → Dict.get alert "source_ip" ≡ some (text s)
          → env.ip_text s ≡ some t
          → count t ≤ 45)
      → IsCalled alert
  validate_alert-correlate_call alert ok plain short =
      let (s, t, at, e) = valid-source alert ok in
      let within : ltb 45 (count t) ≡ false = ground (arith, short s t at e) in
      let source : env.ip_text (strip (read_alert env alert).source_ip) ≡ some t =
        rw (source_ip-read_alert alert s at, plain s at) e in
      let (c, called, key) = called_with (read_alert env alert) t source within in
      (s, t, c, at, e, called, key)

  abbrev pub address_ok : Dict Value → String → Bool
  address_ok event k =
      check_ip_address env.ip_text (event_text env.str_of (Dict.get event k) "127.0.0.1")

  abbrev pub severity_ok : String → Bool
  severity_ok severity = contains severity ("low" ∷ "medium" ∷ "high" ∷ "critical" ∷ [])

  -- the name of a technique, or none, is always taken
  technique-conforms :
      (o : Option String)
      → conforms env.ip_text env.is_date_time string_or_null (text_or_null o) ≡ true
  unfolding conforms
  technique-conforms none = refl
  technique-conforms (some s) = refl

  -- Of the alerts that the handler builds, the gate refuses just those whose time is no date, whose severity is
  -- none of the four, or one of whose addresses Python's ipaddress refuses: whatever the event and the
  -- detection hold, and whether or not the evidence was enriched, the rest of the schema is met.
  pub validate_alert-alert_of :
      (a : Answers) (event : Dict Value) (det : Finding) (trace_id : String)
      → validate_alert env.ip_text env.is_date_time (alert_of env a event det trace_id) ≡ (
          env.is_date_time a.timestamp
          && (address_ok event "id.orig_h"
              && (address_ok event "id.resp_h" && severity_ok det.severity)))
  unfolding validate_alert has_all all_conform entry_conforms conforms raw_alert Dict.get Dict.put
  validate_alert-alert_of a event det trace_id = elim (Option-cases a.evidence) [
    | inl e ↦
        rw (e, technique-conforms det.mitre_tactic, technique-conforms det.mitre_technique)
          (ground arith)
    | inr (d, e) ↦
        rw (e, technique-conforms det.mitre_tactic, technique-conforms det.mitre_technique)
          (ground arith)
  ]
