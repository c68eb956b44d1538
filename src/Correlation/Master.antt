-- ===== src/Correlation/Master.antt =====
-- `check_redis_master` of inference/correlation.py, which `add_alert` asks before it counts. Times are in seconds.
use mathlib.Core.List.{Memᴰ}
use ai_cyber_threat_detector.Common.{
  ℕ, ◌+◌, ◌-◌, ◌≤◌, ◌<◌, ◌≡◌, ◌⊎◌, inl, inr, refl, Bool, true, false, List, [], ◌∷◌, if◌then◌else◌,
  ltb, arith, Bool-cases, ltb→lt,
}

-- the answer of INFO: the role, or a RedisError
pub data Role : Type 0 where
  master replica redis_error : Role

-- the time of the last check, and the answers that Redis gave
pub record Checker : Type 0 where
  pub last_master_check : ℕ
  pub answers : List (ℕ × Role)

abbrev pub unchecked : Checker
unchecked = record { last_master_check = 0; answers = [] }

-- what follows an answer
unfoldable pub on_role : ℕ → Role → Checker → Bool × Checker
on_role now master c =
    (true, record { last_master_check = now; answers = (now, master) ∷ c.answers })
on_role now replica c = (false, record c { answers = (now, replica) ∷ c.answers })
on_role now redis_error c = (false, record c { answers = (now, redis_error) ∷ c.answers })

-- `role` is what Redis answers if it is asked
unfoldable pub check_redis_master : (now : ℕ) → (role : Role) → Checker → Bool × Checker
unfolding on_role
check_redis_master now role c =
    if ltb (now - c.last_master_check) 5 then (true, c) else on_role now role c

-- the checks of a run of alerts
unfoldable pub checks : List (ℕ × Role) → Checker → Checker
unfolding check_redis_master
checks [] c = c
checks ((now, role) ∷ calls) c = checks calls (check_redis_master now role c).1

-- the time of the last check is that of an answer by a master, or the start
abbrev IsTimed : Checker → Type 0
IsTimed c = (c.last_master_check ≡ 0) ⊎ Memᴰ (c.last_master_check, master) c.answers

on_role-IsTimed : (now : ℕ) (role : Role) (c : Checker) → IsTimed c → IsTimed (on_role now role c).1
unfolding on_role
on_role-IsTimed now master c h = inr (Memᴰ.head refl)
on_role-IsTimed now replica c h = elim h [ inl e ↦ inl e | inr m ↦ inr (Memᴰ.tail m) ]
on_role-IsTimed now redis_error c h = elim h [ inl e ↦ inl e | inr m ↦ inr (Memᴰ.tail m) ]

check_redis_master-IsTimed :
    (now : ℕ) (role : Role) (c : Checker) → IsTimed c → IsTimed (check_redis_master now role c).1
unfolding check_redis_master
check_redis_master-IsTimed now role c h = elim (Bool-cases (ltb (now - c.last_master_check) 5)) [
  | inl e ↦ rw e h
  | inr e ↦ rw e (on_role-IsTimed now role c h)
]

checks-IsTimed : (calls : List (ℕ × Role)) (c : Checker) → IsTimed c → IsTimed (checks calls c)
unfolding checks
checks-IsTimed [] c h = h
checks-IsTimed ((now, role) ∷ calls) c h =
    checks-IsTimed calls (check_redis_master now role c).1 (check_redis_master-IsTimed now role c h)

-- an answer of a master less than five seconds ago
abbrev pub IsRecent : ℕ → Checker → Type 0
IsRecent now c = (s : ℕ) × (now < s + 5) × Memᴰ (s, master) c.answers

on_role-IsRecent :
    (now : ℕ) (role : Role) (c : Checker)
    → (on_role now role c).0 ≡ true
    → IsRecent now (on_role now role c).1
unfolding on_role
on_role-IsRecent now master c h = (now, omega arith, Memᴰ.head refl)
on_role-IsRecent now replica c h = absurd (cc h)
on_role-IsRecent now redis_error c h = absurd (cc h)

-- Whenever the check lets an alert be counted, a master has answered less than five seconds before, whatever Redis answered in the
-- run of checks up to then: after a failover no alert is counted on the former master for longer than that. The clock is past its first five seconds.
pub check_redis_master-IsRecent :
    (calls : List (ℕ × Role)) (now : ℕ) (role : Role)
    → 5 ≤ now
    → (check_redis_master now role (checks calls unchecked)).0 ≡ true
    → IsRecent now (check_redis_master now role (checks calls unchecked)).1
unfolding check_redis_master
check_redis_master-IsRecent calls now role late passed =
    let c = checks calls unchecked in
    let timed : IsTimed c = checks-IsTimed calls unchecked (inl refl) in
    elim (Bool-cases (ltb (now - c.last_master_check) 5)) [
      | inl e ↦ rw e (elim timed [
        | inl start ↦ absurd (omega (arith, start, late, ltb→lt (now - c.last_master_check) 5 e))
        | inr m ↦ (c.last_master_check, omega (arith, ltb→lt (now - c.last_master_check) 5 e), m)
      ])
      | inr e ↦ rw e (on_role-IsRecent now role c (rw e at passed))
    ]
