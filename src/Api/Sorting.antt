-- ===== src/Api/Sorting.antt =====
-- An ordering by id, by insertion: it shows that what the pages of api/routes/alerts.py ask of ORDER BY can be met.
use mathlib.Core.List.{Memᴰ}
use ai_cyber_threat_detector.Common.{
  ◌<◌, ◌≡◌, ◌≢◌, ◌↔◌, refl, List, [], ◌∷◌, if◌then◌else◌, ltb, All-Mem, Mem-All, arith, inl, inr,
  ◌⊎◌, Bool-cases, ltb→lt,
}
use ai_cyber_threat_detector.Api.Alerts.{Alert}
use ai_cyber_threat_detector.Api.Listing.{IsDescending}
use ai_cyber_threat_detector.Api.Paging.{IsKeyed, IsOrdering}

unfoldable pub insert : Alert → List Alert → List Alert
insert a [] = a ∷ []
insert a (b ∷ rows) = let rest = insert a rows in if ltb b.id a.id then a ∷ b ∷ rows else b ∷ rest

unfoldable pub sort_desc : List Alert → List Alert
unfolding insert
sort_desc [] = []
sort_desc (a ∷ rows) = insert a (sort_desc rows)

Mem-insert→ : (x a : Alert) (rows : List Alert) → Memᴰ x (insert a rows) → (x ≡ a) ⊎ Memᴰ x rows
unfolding insert
Mem-insert→ x a [] (Memᴰ.head e) = inl e
Mem-insert→ x a [] (Memᴰ.tail m) = elim m [ ]
Mem-insert→ x a (b ∷ rows) m = elim (Bool-cases (ltb b.id a.id)) [
  | inl e ↦ elim (rw e at m) [ Memᴰ.head same ↦ inl same | Memᴰ.tail there ↦ inr there ]
  | inr e ↦ elim (rw e at m) [
    | Memᴰ.head same ↦ inr (Memᴰ.head same)
    | Memᴰ.tail there ↦ elim (Mem-insert→ x a rows there) [
      | inl same ↦ inl same
      | inr in_rows ↦ inr (Memᴰ.tail in_rows)
    ]
  ]
]

Mem-insert_head : (a : Alert) (rows : List Alert) → Memᴰ a (insert a rows)
unfolding insert
Mem-insert_head a [] = Memᴰ.head refl
Mem-insert_head a (b ∷ rows) = elim (Bool-cases (ltb b.id a.id)) [
  | inl e ↦ rw e (Memᴰ.head refl)
  | inr e ↦ rw e (Memᴰ.tail (Mem-insert_head a rows))
]

Mem-insert_tail : (x a : Alert) (rows : List Alert) → Memᴰ x rows → Memᴰ x (insert a rows)
unfolding insert
Mem-insert_tail x a [] m = elim m [ ]
Mem-insert_tail x a (b ∷ rows) m = elim (Bool-cases (ltb b.id a.id)) [
  | inl e ↦ rw e (Memᴰ.tail m)
  | inr e ↦ rw e (elim m [
    | Memᴰ.head same ↦ Memᴰ.head same
    | Memᴰ.tail there ↦ Memᴰ.tail (Mem-insert_tail x a rows there)
  ])
]

insert-IsDescending :
    (a : Alert) (rows : List Alert)
    → ((x : Alert) → Memᴰ x rows → x.id ≢ a.id)
    → IsDescending rows
    → IsDescending (insert a rows)
unfolding insert
insert-IsDescending a [] fresh h = (tt, tt)
insert-IsDescending a (b ∷ rows) fresh h = elim (Bool-cases (ltb b.id a.id)) [
  | inl e ↦
      let low = ltb→lt b.id a.id e in
      rw e (
        (
          low,
          Mem-All (λ c. c.id < a.id) rows
              λ c m. omega (arith, low, All-Mem (λ c. c.id < b.id) rows c h.0 m),
        ),
        h,
      )
  | inr e ↦ rw e (
    Mem-All (λ c. c.id < b.id) (insert a rows)
        (λ c m. elim (Mem-insert→ c a rows m) [
          | inl same ↦ rw same (ground (arith, e, fresh b (Memᴰ.head refl)))
          | inr there ↦ All-Mem (λ c. c.id < b.id) rows c h.0 there
        ]),
    insert-IsDescending a rows (λ x m. fresh x (Memᴰ.tail m)) h.1,
  )
]

sort_desc-Mem : (rows : List Alert) (x : Alert) → Memᴰ x (sort_desc rows) ↔ Memᴰ x rows
unfolding sort_desc
sort_desc-Mem [] x = (λ m. m, λ m. m)
sort_desc-Mem (a ∷ rows) x = (
  λ m. elim (Mem-insert→ x a (sort_desc rows) m) [
    | inl same ↦ Memᴰ.head same
    | inr there ↦ Memᴰ.tail ((sort_desc-Mem rows x).0 there)
  ],
  λ m. elim m [
    | Memᴰ.head same ↦ rw same (Mem-insert_head a (sort_desc rows))
    | Memᴰ.tail there ↦ Mem-insert_tail x a (sort_desc rows) ((sort_desc-Mem rows x).1 there)
  ],
)

sort_desc-IsDescending : (rows : List Alert) → IsKeyed rows → IsDescending (sort_desc rows)
unfolding sort_desc
sort_desc-IsDescending [] h = tt
sort_desc-IsDescending (a ∷ rows) h =
    insert-IsDescending a (sort_desc rows)
      (λ x m. All-Mem (λ b. b.id ≢ a.id) rows x h.0 ((sort_desc-Mem rows x).0 m))
      (sort_desc-IsDescending rows h.1)

pub sort_desc-IsOrdering : IsOrdering sort_desc
sort_desc-IsOrdering = record {
  descends = sort_desc-IsDescending;
  keeps = λ rows a keyed. sort_desc-Mem rows a;
}
