-- ===== src/Terminal/Ranked.antt =====
-- The sort of the incidents in terminal/tsoc_console.py: by risk, and the same incidents.
use mathlib.Core.List.{Memᴰ}
use ai_cyber_threat_detector.Common.{
  ◌≤◌, ◌≡◌, ◌↔◌, ◌⊎◌, inl, inr, List, [], ◌∷◌, ltb, All, All-Mem, Mem-All, arith, Bool-cases,
  ltb→lt, String, str_eq, eq_iff, false,
}
use ai_cyber_threat_detector.DataAccess.Incidents.{Incident}
use ai_cyber_threat_detector.Terminal.Console.{insert_incident, sort_incidents}

-- the highest risk first
abbrev pub IsRanked : List Incident → Type 0
IsRanked [] = Unit
IsRanked (i ∷ l) = All (λ j. j.risk_score ≤ i.risk_score) l × IsRanked l

Mem-insert_incident :
    (x i : Incident) (l : List Incident) → Memᴰ x (insert_incident i l) ↔ ((x ≡ i) ⊎ Memᴰ x l)
unfolding insert_incident
Mem-insert_incident x i [] = (
  λ m. elim m [ Memᴰ.head e ↦ inl e | Memᴰ.tail t ↦ inr t ],
  λ m. elim m [ inl e ↦ Memᴰ.head e | inr t ↦ Memᴰ.tail t ],
)
Mem-insert_incident x i (j ∷ l) = elim (Bool-cases (ltb i.risk_score j.risk_score)) [
  | inl e ↦ rw e (
    (λ m. elim m [
      | Memᴰ.head same ↦ inr (Memᴰ.head same)
      | Memᴰ.tail t ↦ elim ((Mem-insert_incident x i l).0 t) [
        | inl same ↦ inl same
        | inr u ↦ inr (Memᴰ.tail u)
      ]
    ]),
    (λ m. elim m [
      | inl same ↦ Memᴰ.tail ((Mem-insert_incident x i l).1 (inl same))
      | inr (Memᴰ.head same) ↦ Memᴰ.head same
      | inr (Memᴰ.tail t) ↦ Memᴰ.tail ((Mem-insert_incident x i l).1 (inr t))
    ]),
  )
  | inr e ↦ rw e (
    (λ m. elim m [ Memᴰ.head same ↦ inl same | Memᴰ.tail t ↦ inr t ]),
    (λ m. elim m [ inl same ↦ Memᴰ.head same | inr t ↦ Memᴰ.tail t ]),
  )
]

insert_incident-IsRanked :
    (i : Incident) (l : List Incident) → IsRanked l → IsRanked (insert_incident i l)
unfolding insert_incident
insert_incident-IsRanked i [] h = (tt, tt)
insert_incident-IsRanked i (j ∷ l) h = elim (Bool-cases (ltb i.risk_score j.risk_score)) [
  | inl e ↦ rw e (
    Mem-All (λ k. k.risk_score ≤ j.risk_score) (insert_incident i l)
        (λ k m. elim ((Mem-insert_incident k i l).0 m) [
          | inl same ↦ rw same (omega (arith, ltb→lt i.risk_score j.risk_score e))
          | inr t ↦ All-Mem (λ k. k.risk_score ≤ j.risk_score) l k h.0 t
        ]),
    insert_incident-IsRanked i l h.1,
  )
  | inr e ↦
      let low : j.risk_score ≤ i.risk_score = ground (arith, e) in
      rw e (
        (
          low,
          Mem-All (λ k. k.risk_score ≤ i.risk_score) l
              λ k m. omega (arith, low, All-Mem (λ k. k.risk_score ≤ j.risk_score) l k h.0 m),
        ),
        h,
      )
]

pub sort_incidents-IsRanked : (l : List Incident) → IsRanked (sort_incidents l)
unfolding sort_incidents
sort_incidents-IsRanked [] = tt
sort_incidents-IsRanked (i ∷ l) =
    insert_incident-IsRanked i (sort_incidents l) (sort_incidents-IsRanked l)

pub Mem-sort_incidents : (x : Incident) (l : List Incident) → Memᴰ x (sort_incidents l) ↔ Memᴰ x l
unfolding sort_incidents
Mem-sort_incidents x [] = (λ m. m, λ m. m)
Mem-sort_incidents x (i ∷ l) = (
  λ m. elim ((Mem-insert_incident x i (sort_incidents l)).0 m) [
    | inl same ↦ Memᴰ.head same
    | inr t ↦ Memᴰ.tail ((Mem-sort_incidents x l).0 t)
  ],
  λ m. elim m [
    | Memᴰ.head same ↦ (Mem-insert_incident x i (sort_incidents l)).1 (inl same)
    | Memᴰ.tail t ↦
        (Mem-insert_incident x i (sort_incidents l)).1 (inr ((Mem-sort_incidents x l).1 t))
  ],
)

-- no two incidents have the same id
abbrev pub IsDistinct : List Incident → Type 0
IsDistinct [] = Unit
IsDistinct (i ∷ l) = All (λ j. str_eq i.incident_id j.incident_id ≡ false) l × IsDistinct l

other_id : (s t : String) → str_eq s t ≡ false → str_eq t s ≡ false
other_id s t h = ground (arith, h, eq_iff s t, eq_iff t s)

insert_incident-IsDistinct :
    (i : Incident) (l : List Incident) → IsDistinct (i ∷ l) → IsDistinct (insert_incident i l)
unfolding insert_incident
insert_incident-IsDistinct i [] h = (tt, tt)
insert_incident-IsDistinct i (j ∷ l) h = elim (Bool-cases (ltb i.risk_score j.risk_score)) [
  | inr e ↦ rw e h
  | inl e ↦ rw e (
    Mem-All (λ k. str_eq j.incident_id k.incident_id ≡ false) (insert_incident i l)
        (λ k m. elim ((Mem-insert_incident k i l).0 m) [
          | inl same ↦ rw same (other_id i.incident_id j.incident_id h.0.0)
          | inr t ↦ All-Mem (λ k. str_eq j.incident_id k.incident_id ≡ false) l k h.1.0 t
        ]),
    insert_incident-IsDistinct i l (h.0.1, h.1.1),
  )
]

pub sort_incidents-IsDistinct : (l : List Incident) → IsDistinct l → IsDistinct (sort_incidents l)
unfolding sort_incidents
sort_incidents-IsDistinct [] h = tt
sort_incidents-IsDistinct (i ∷ l) h = insert_incident-IsDistinct i (sort_incidents l) (
  Mem-All (λ j. str_eq i.incident_id j.incident_id ≡ false) (sort_incidents l)
      (λ j m.
        All-Mem (λ j. str_eq i.incident_id j.incident_id ≡ false) l j h.0
          ((Mem-sort_incidents j l).0 m)),
  sort_incidents-IsDistinct l h.1,
)
