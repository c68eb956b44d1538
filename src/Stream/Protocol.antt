-- ===== src/Stream/Protocol.antt =====
-- The protocol that inference/stream_processor_faust.py follows, as a step relation: an alert is published before Redis hears of
-- it, and an incident is reported with the answer of the script that counts its alert.
use ai_cyber_threat_detector.Common.{◌≡◌, refl, Bool, true, List, [], ◌∷◌, All}
use ai_cyber_threat_detector.Common.{◌++◌ as ◌⧺◌}
use mathlib.Core.List.{Memᴰ}
use ai_cyber_threat_detector.Common.{some, All-append, Mem-left}
use ai_cyber_threat_detector.Common.Dict
use ai_cyber_threat_detector.Common.Dict.{Dict}
use ai_cyber_threat_detector.Redis.{Redis}
use ai_cyber_threat_detector.Correlation.Scripts.{Outcome}
use ai_cyber_threat_detector.Correlation.Alert.{add_alert, rollback_alert_seen}
use ai_cyber_threat_detector.Stream.Schema.{Json, flag, validate_alert}
use ai_cyber_threat_detector.Stream.Letters.{Letter, Incident, World}
use ai_cyber_threat_detector.Stream.Emit.{Env, Worlds, read_alert}

-- a letter that the correlator will take as a replay
abbrev pub IsReplay : Letter → Type 0
IsReplay letter = Dict.get letter.alert "is_replay" ≡ some (flag true)

abbrev pub IsPublished : {S : Type 0} → Dict Json → World S → Type 0
IsPublished alert w = Memᴰ alert w.alerts

module _ (env : Env) (r : Redis) where
  abbrev pub IsValid : Dict Json → Type 0
  IsValid alert = validate_alert env.ip_text env.is_date_time alert ≡ true

  -- what the script answers of an alert in a state of Redis
  abbrev pub IsAnswer : Dict Json → (is_master : Bool) → Outcome → Redis.State r → Type 0
  IsAnswer alert is_master outcome s =
      (add_alert env.ip_text r is_master (read_alert env alert) s).0 ≡ some outcome

  -- the script has answered of the incident's alert what the incident reports, with the flag 1
  abbrev pub IsRaised : Incident → Type 0
  IsRaised i =
      (i.outcome.incident ≡ 1)
      × ((is_master : Bool) × (s : Redis.State r) × IsAnswer i.alert is_master i.outcome s)

  pub data Step : Worlds env r → Worlds env r → Type 0 where
    put_alert :
        (alert : Dict Json) (w : Worlds env r)
        → IsValid alert
        → Step w (record w { alerts = w.alerts ⧺ alert ∷ [] })
    count :
        (alert : Dict Json) (is_master : Bool) (w : Worlds env r)
        → IsPublished alert w
        → Step w (record w {
          correlation = (add_alert env.ip_text r is_master (read_alert env alert) w.correlation).1;
        })
    undo :
        (alert : Dict Json) (w : Worlds env r)
        → IsPublished alert w
        → Step w (record w {
          correlation = rollback_alert_seen env.ip_text r (read_alert env alert) w.correlation;
        })
    -- the script counts the alert and raises the flag, and its answer is reported
    count_and_report :
        (alert : Dict Json) (is_master : Bool) (outcome : Outcome) (w : Worlds env r)
        → IsPublished alert w
        → IsAnswer alert is_master outcome w.correlation
        → outcome.incident ≡ 1
        → Step w (record w {
          correlation = (add_alert env.ip_text r is_master (read_alert env alert) w.correlation).1;
          incidents = w.incidents ⧺ record { alert = alert; outcome = outcome } ∷ [];
        })
    park :
        (letter : Letter) (w : Worlds env r)
        → IsReplay letter
        → Step w (record w { dead_letters = w.dead_letters ⧺ letter ∷ [] })
    park_local :
        (letter : Letter) (w : Worlds env r)
        → IsReplay letter
        → Step w (record w { local_letters = w.local_letters ⧺ letter ∷ [] })

  pub data Reach (v : Worlds env r) : Worlds env r → Type 0 where
    here : Reach v v
    next : {w x : Worlds env r} → Reach v w → Step w x → Reach v x

  pub Reach-trans : {u v w : Worlds env r} → Reach u v → Reach v w → Reach u w
  Reach-trans a here = a
  Reach-trans a (next b s) = next (Reach-trans a b) s

  -- What the protocol keeps: the published alerts are valid, each incident is of a published alert and carries the
  -- script's answer of that alert, with the flag 1, and the dead letters are replays.
  pub record IsSound (w : Worlds env r) : Type 0 where
    pub valid : All IsValid w.alerts
    pub reported : All (λ i. IsPublished i.alert w × IsRaised i) w.incidents
    pub replays : All IsReplay w.dead_letters
    pub local_replays : All IsReplay w.local_letters

module _ {ℓ} {A : Type ℓ} where
  pub Mem-last : (a : A) (xs : List A) → Memᴰ a (xs ⧺ a ∷ [])
  Mem-last a [] = Memᴰ.head refl
  Mem-last a (x ∷ xs) = Memᴰ.tail (Mem-last a xs)

  All-mono : {P Q : A → Type 0} → ((a : A) → P a → Q a) → (xs : List A) → All P xs → All Q xs
  All-mono f [] h = h
  All-mono f (x ∷ xs) h = (f x h.0, All-mono f xs h.1)

module _ (env : Env) (r : Redis) where
  Step-IsSound : {v w : Worlds env r} → Step env r v w → IsSound env r v → IsSound env r w
  Step-IsSound (put_alert alert w ok) h = record {
    valid = All-append (IsValid env r) w.alerts (alert ∷ []) h.valid (ok, tt);
    reported =
        All-mono (λ i m. (Mem-left i.alert w.alerts (alert ∷ []) m.0, m.1)) w.incidents h.reported;
    replays = h.replays;
    local_replays = h.local_replays;
  }
  Step-IsSound (count alert b w m) h = record {
    valid = h.valid;
    reported = h.reported;
    replays = h.replays;
    local_replays = h.local_replays;
  }
  Step-IsSound (undo alert w m) h = record {
    valid = h.valid;
    reported = h.reported;
    replays = h.replays;
    local_replays = h.local_replays;
  }
  Step-IsSound (count_and_report alert b outcome w m e one) h = record {
    valid = h.valid;
    reported =
        All-append (λ i. IsPublished i.alert w × IsRaised env r i) w.incidents
          (record { alert = alert; outcome = outcome } ∷ []) h.reported
          ((m, (one, (b, w.correlation, e))), tt);
    replays = h.replays;
    local_replays = h.local_replays;
  }
  Step-IsSound (park letter w replay) h = record {
    valid = h.valid;
    reported = h.reported;
    replays = All-append IsReplay w.dead_letters (letter ∷ []) h.replays (replay, tt);
    local_replays = h.local_replays;
  }
  Step-IsSound (park_local letter w replay) h = record {
    valid = h.valid;
    reported = h.reported;
    replays = h.replays;
    local_replays = All-append IsReplay w.local_letters (letter ∷ []) h.local_replays (replay, tt);
  }

  pub Reach-IsSound : {v w : Worlds env r} → Reach env r v w → IsSound env r v → IsSound env r w
  Reach-IsSound here h = h
  Reach-IsSound (next a s) h = Step-IsSound s (Reach-IsSound a h)
