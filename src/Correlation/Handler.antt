-- ===== src/Correlation/Handler.antt =====
-- `add_alert` of inference/correlation.py as a whole: the check for the master, the script, and the incident. That the script's call
-- fails is part of the stream processor's answers; here it returns.
use ai_cyber_threat_detector.Common.{
  ℕ, ◌≤◌, ◌≡◌, inl, inr, refl, Bool, true, false, ◌==◌, Option, none, some, List, String,
  if◌then◌else◌, Bool-cases, Option-cases, is_some,
}
use ai_cyber_threat_detector.Common.Text.{strip}
use ai_cyber_threat_detector.Redis.{Redis}
use ai_cyber_threat_detector.Correlation.Scripts.{Call, Outcome, correlate}
use ai_cyber_threat_detector.Correlation.Alert.{Alert, correlate_call, add_alert}
use ai_cyber_threat_detector.Correlation.Report.{ParsedAlert, Report, report}
use ai_cyber_threat_detector.Correlation.Master.{
  Role, Checker, unchecked, check_redis_master, checks, IsRecent, check_redis_master-IsRecent,
}

-- what the clock, `uuid4` and INFO give at a call
pub record Instant : Type 0 where
  pub now : ℕ
  pub now_ms : ℕ
  pub fresh_id : String
  pub role : Role

-- what a call leaves
pub record Handled (r : Redis) : Type 0 where
  pub incident : Option Report
  pub checker : Checker
  pub redis : Redis.State r

module _ (loads : String → Option ParsedAlert) (str_int : ℕ → String)
    (ip_text : String → Option String) where
  unfoldable pub incident_of :
      Instant → Alert → ParsedAlert → (trace_id : Option String) → Option Outcome → Option Report
  incident_of m alert parsed trace_id none = none
  incident_of m alert parsed trace_id (some o) =
      if o.incident == 1
      then (elim (ip_text (strip alert.source_ip)) [
        | none ↦ none
        | some src_ip ↦ some (
            report loads str_int m.fresh_id m.now m.now_ms src_ip parsed trace_id o.alerts_snapshot)
      ])
      else none

  module _ (r : Redis) where
    unfoldable pub handle_alert :
        Instant
        → Alert
        → ParsedAlert
        → (trace_id : Option String) → Checker
        → Redis.State r
        → Handled r
    unfolding incident_of
    handle_alert m alert parsed trace_id c s =
        let (passed, c') = check_redis_master m.now m.role c in
        let (outcome, s') = add_alert ip_text r passed alert s in
        record { incident = incident_of m alert parsed trace_id outcome; checker = c'; redis = s' }

    -- nothing is counted and nothing is reported
    abbrev pub IsPassedOver : Redis.State r → Handled r → Type 0
    IsPassedOver s out = (out.incident ≡ none) × (out.redis ≡ s)

    -- what a call leaves, by what the check for the master says and what the script is called with
    abbrev pub IsHandled : ℕ → Redis.State r → Bool → Option Call → Handled r → Type 0
    IsHandled now s false call out = IsPassedOver s out
    IsHandled now s true none out = IsPassedOver s out
    IsHandled now s true (some c) out =
        IsRecent now out.checker
        × (out.redis ≡ (correlate r c s).1)
        × (is_some out.incident ≡ ((correlate r c s).0.incident == 1))

    call_address :
        (alert : Alert) (c : Call)
        → correlate_call ip_text alert ≡ some c
        → (src_ip : String) × (ip_text (strip alert.source_ip) ≡ some src_ip)
    unfolding correlate_call
    call_address alert c e = elim (Option-cases (ip_text (strip alert.source_ip))) [
      | inl f ↦ absurd (cc (rw (f, correlate_call) at e))
      | inr found ↦ found
    ]

    is_some-incident_of :
        (m : Instant) (alert : Alert) (parsed : ParsedAlert) (trace_id : Option String)
        (o : Outcome) (src_ip : String)
        → ip_text (strip alert.source_ip) ≡ some src_ip
        → is_some (incident_of m alert parsed trace_id (some o)) ≡ (o.incident == 1)
    unfolding incident_of
    is_some-incident_of m alert parsed trace_id o src_ip e = elim (Bool-cases (o.incident == 1)) [
      | inl f ↦ rw (f, e) refl
      | inr f ↦ rw f refl
    ]

    -- Whatever Redis answered in the checks of the calls before: if the check for the master fails or the address is refused, `add_alert`
    -- reports nothing and leaves Redis as it is; otherwise a master has answered less than five seconds before, Redis is what
    -- CORRELATE_LUA leaves, and an incident is reported exactly if the script's flag is 1. The clock is past its first five seconds.
    pub handle_alert-IsHandled :
        (calls : List (ℕ × Role)) (m : Instant) (alert : Alert) (parsed : ParsedAlert)
        (trace_id : Option String) (s : Redis.State r)
        → 5 ≤ m.now
        → IsHandled m.now s
            (check_redis_master m.now m.role (checks calls unchecked)).0
            (correlate_call ip_text alert)
            (handle_alert m alert parsed trace_id (checks calls unchecked) s)
    unfolding handle_alert add_alert
    handle_alert-IsHandled calls m alert parsed trace_id s late =
        let c = checks calls unchecked in
        elim (Bool-cases (check_redis_master m.now m.role c).0) [
          | inr e ↦ rw (e, add_alert) (refl, refl)
          | inl e ↦ elim (Option-cases (correlate_call ip_text alert)) [
            | inl f ↦ rw (e, add_alert, f) (refl, refl)
            | inr (call, f) ↦
                let (src_ip, g) = call_address alert call f in
                rw (e, f, add_alert)
                  (
                    check_redis_master-IsRecent calls m.now m.role late e,
                    refl,
                    is_some-incident_of m alert parsed trace_id (correlate r call s).0 src_ip g,
                  )
          ]
        ]
