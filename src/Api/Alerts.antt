-- ===== src/Api/Alerts.antt =====
-- The alert routes of api/routes/alerts.py over the table of api/models.py. SQL's ORDER BY is the database's: a parameter.
use ai_cyber_threat_detector.Common.{
  ℕ, ◌&&◌, Option, none, some, List, [], ◌∷◌, String, str_eq, if◌then◌else◌, ltb, take,
}
use ai_cyber_threat_detector.Common.Int.{ℤ, pos, negsuc}
use ai_cyber_threat_detector.Access.Auth
use ai_cyber_threat_detector.Access.Auth.{
  Principal, Credentials, granted, unauthorized, forbidden, failed, verify_auth, require_scope,
}

-- a row of `alerts`, with the confidence in hundredths
pub record Alert : Type 0 where
  pub id : ℕ
  pub alert_id : String
  pub timestamp : String
  pub event_type : String
  pub threat_class : Option String
  pub confidence_score : Option ℕ
  pub severity : Option String
  pub source_ip : Option String
  pub destination_ip : Option String
  pub evidence : Option String
  pub trace_id : Option String
  pub flow_id : Option String
  pub span_id : Option String
  pub mitre_tactic : Option String
  pub mitre_technique : Option String
  pub model_name : Option String
  pub model_version : Option String
  pub schema_version : Option String

-- how a route answers: with a value, or with the status of an error
pub data Answer {ℓ} (A : Type ℓ) : Type ℓ where
  ok : A → Answer A
  error : (status_code : ℕ) → Answer A

-- models.Alert.id < cursor
unfoldable pub older : ℕ → List Alert → List Alert
older cursor [] = []
older cursor (a ∷ rows) = let rest = older cursor rows in if ltb a.id cursor then a ∷ rest else rest

-- the rows with an alert id, in the table's order
unfoldable pub named : String → List Alert → List Alert
named alert_id [] = []
named alert_id (a ∷ rows) =
    let rest = named alert_id rows in if str_eq a.alert_id alert_id then a ∷ rest else rest

-- the query of `get_alerts`, for a cursor and a limit that passed the checks of their `Query`
unfoldable pub alerts_page : (List Alert → List Alert) → ℕ → ℕ → List Alert → List Alert
unfolding older
alerts_page order_by_id_desc cursor limit table =
    take limit (order_by_id_desc (if ltb 0 cursor then older cursor table else table))

-- `Query(0, ge=0)` and `Query(100, ge=1, le=100)`; a parameter that is missing takes its default
unfoldable pub check_cursor : Option ℤ → Option ℕ
check_cursor none = some 0
check_cursor (some (pos n)) = some n
check_cursor (some (negsuc n)) = none

unfoldable pub check_limit : Option ℤ → Option ℕ
check_limit none = some 100
check_limit (some (negsuc n)) = none
check_limit (some (pos n)) = if ltb 0 n && ltb n 101 then some n else none

-- A dependency that fails answers for the route. FastAPI reports an invalid parameter after the dependencies ran.
unfoldable pub guarded {ℓ} : {A : Type ℓ} → Auth.Reply → Answer A → Answer A
guarded (granted principal) answer = answer
guarded unauthorized answer = error 401
guarded forbidden answer = error 403
guarded failed answer = error 500

module _ (api_key : String) (verify_token : String → Option Principal) where
  -- `get_authenticated_db` and `require_scope("alerts:read")`
  unfoldable pub authorized {ℓ} : {A : Type ℓ} → Credentials → Answer A → Answer A
  unfolding guarded
  authorized c answer =
      guarded (verify_auth api_key verify_token c)
        (guarded (require_scope api_key verify_token "alerts:read" c) answer)

  unfoldable pub get_alerts :
      (List Alert → List Alert)
      → Credentials
      → (cursor limit : Option ℤ) → List Alert
      → Answer (List Alert)
  unfolding alerts_page check_cursor check_limit authorized
  get_alerts order_by_id_desc c cursor limit table = authorized c (elim (check_cursor cursor) [
    | none ↦ error 422
    | some from ↦ elim (check_limit limit) [
      | none ↦ error 422
      | some n ↦ ok (alerts_page order_by_id_desc from n table)
    ]
  ])

  unfoldable pub get_alert_by_id : Credentials → String → List Alert → Answer Alert
  unfolding named authorized
  get_alert_by_id c alert_id table =
      authorized c (elim (named alert_id table) [ [] ↦ error 404 | alert ∷ rest ↦ ok alert ])
