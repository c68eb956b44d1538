-- ===== src/DataAccess/Listeners.antt =====
-- The single `DataStreamManager` of shared/data_access.py: its start, and what it hands to the pages besides incidents.
use ai_cyber_threat_detector.Common.{
  ℕ, zero, suc, ◌+◌, ◌≡◌, refl, Bool, true, false, Option, none, some, String, if◌then◌else◌,
  length, arith, Bool-cases, inl, inr,
}
use ai_cyber_threat_detector.DataAccess.Polling.{Manager}

-- what `start_listeners` goes by, and the threads that it started
pub record Listeners : Type 0 where
  pub config_error : Option String
  pub is_running : Bool
  pub threads : ℕ

-- `_instance`, with the configuration that `_init_state` reads the first time
unfoldable pub get_instance : (config_error : Option String) → Option Listeners → Listeners
get_instance config_error none = record {
  config_error = config_error;
  is_running = false;
  threads = 0;
}
get_instance config_error (some m) = m

unfoldable pub start_listeners : Listeners → Listeners
start_listeners m = elim m.config_error [
  | some error ↦ m
  | none ↦ if m.is_running then m else record m { is_running = true; threads = m.threads + 1 }
]

-- the pages of a dashboard, each of which takes the instance and starts it
unfoldable pub open_pages : (config_error : Option String) → ℕ → Option Listeners → Option Listeners
unfolding get_instance start_listeners
open_pages config_error zero m = m
open_pages config_error (suc n) m =
    open_pages config_error n (some (start_listeners (get_instance config_error m)))

pub record Status (S : Type 0) : Type 0 where
  pub broker_healthy : Bool
  pub last_event_time : ℕ
  pub incident_count : ℕ
  pub alert_count : ℕ
  pub stats : S

unfoldable pub status : {S : Type 0} → Manager S → Status S
status m = record {
  broker_healthy = m.broker_healthy;
  last_event_time = m.last_event_time;
  incident_count = length m.alerts;
  alert_count = length m.alerts;
  stats = m.stats;
}

-- no thread without a configuration, and one at most
abbrev pub IsSingle : Listeners → Type 0
IsSingle m = m.threads ≡ (if m.is_running then 1 else 0)

next_thread : (n : ℕ) → n ≡ 0 → n + 1 ≡ 1
next_thread n e = omega (arith, e)

start_listeners-IsSingle : (m : Listeners) → IsSingle m → IsSingle (start_listeners m)
unfolding start_listeners
start_listeners-IsSingle m h = go m.config_error refl
  where
    go : (e : Option String) → m.config_error ≡ e → IsSingle (start_listeners m)
    go (some e) f = rw (f, start_listeners) h
    go none f = elim (Bool-cases m.is_running) [
      | inl b ↦ rw (f, start_listeners, b, start_listeners) (rw b at h)
      | inr b ↦ rw (f, start_listeners, b, start_listeners) (next_thread m.threads (rw b at h))
    ]

abbrev pub Started : Option Listeners → Type 0
Started none = Unit
Started (some m) = IsSingle m

-- However many pages are opened, the manager runs one polling thread at most.
pub open_pages-Started :
    (config_error : Option String) (n : ℕ) (m : Option Listeners)
    → Started m
    → Started (open_pages config_error n m)
unfolding open_pages get_instance
open_pages-Started config_error zero m h = h
open_pages-Started config_error (suc n) none h =
    open_pages-Started config_error n (some (start_listeners (get_instance config_error none)))
      (start_listeners-IsSingle (get_instance config_error none) refl)
open_pages-Started config_error (suc n) (some m) h =
    open_pages-Started config_error n (some (start_listeners m)) (start_listeners-IsSingle m h)
