-- ===== src/DataAccess/Polling.antt =====
-- The configuration and one poll of `DataStreamManager` in shared/data_access.py, and its status.
use ai_cyber_threat_detector.Common.{
  ℕ, Bool, true, false, not, Option, none, some, List, String, str_eq, if◌then◌else◌, ◌==◌, or_else,
}
use ai_cyber_threat_detector.Common.Text.{starts_with}

-- an alert of the API, by texts
pub record Alert : Type 0 where
  pub source_ip : Option String
  pub destination_ip : Option String
  pub timestamp : Option String
  pub severity : Option String
  pub threat_class : Option String
  pub alert_id : Option String

pub data Config : Type 0 where
  config : (api_url api_key : String) → Config
  config_error : String → Config

unfoldable pub load_config : (api_url api_key : Option String) → Config
load_config api_url api_key =
    let url = or_else api_url "http://127.0.0.1:8000/api/v1" in
    let insecure : Bool = elim api_url [ none ↦ false | some u ↦ not (starts_with "https://" u) ] in
    if insecure then config_error "API_URL must use HTTPS when explicitly set" else (elim api_key [
      | none ↦ config_error "TSOC_API_KEY not set"
      | some key ↦ if str_eq key "" then config_error "TSOC_API_KEY not set" else config url key
    ])

-- The answer to a request: `body` is none for JSON of another kind. `raised` is an exception of the request or of its JSON.
pub data Reply (A : Type 0) : Type 0 where
  raised : Reply A
  answered : (status_code : ℕ) (body : Option A) → Reply A

pub record Manager (S : Type 0) : Type 0 where
  pub alerts : List Alert
  pub stats : S
  pub broker_healthy : Bool
  pub last_event_time : ℕ

module _ {S : Type 0} where
  unfoldable pub take_alerts : ℕ → ℕ → Option (List Alert) → Manager S → Manager S
  take_alerts now status_code body m =
      if status_code == 200
      then (elim body [
        | none ↦ m
        | some d ↦ record m { alerts = d; broker_healthy = true; last_event_time = now }
      ])
      else record m { broker_healthy = false }

  unfoldable pub take_stats : Reply S → Manager S → Manager S
  take_stats raised m = record m { broker_healthy = false }
  take_stats (answered status_code none) m = m
  take_stats (answered status_code (some d)) m =
      if status_code == 200 then record m { stats = d } else m

  -- one turn of the loop; the statistics are only asked for if the first request did not raise
  unfoldable pub poll_api : ℕ → Reply (List Alert) → Reply S → Manager S → Manager S
  unfolding take_alerts take_stats
  poll_api now raised resp_stats m = record m { broker_healthy = false }
  poll_api now (answered status_code body) resp_stats m =
      take_stats resp_stats (take_alerts now status_code body m)
