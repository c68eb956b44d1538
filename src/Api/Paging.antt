-- ===== src/Api/Paging.antt =====
-- A client that follows the cursor of `get_alerts` of api/routes/alerts.py.
use mathlib.Core.List.{Memᴰ}
use ai_cyber_threat_detector.Common.{
  ℕ, zero, suc, ◌≤◌, ◌<◌, ◌≡◌, ◌≢◌, ◌↔◌, refl, sym, ap, ◌∙◌, true, Option, none, some, List, [],
  ◌∷◌, ◌++◌, if◌then◌else◌, ltb, take, drop, All, length, arith, inl, inr, Bool-cases, lt→ltb,
  length-drop, String, All-Mem, Mem-All,
}
use ai_cyber_threat_detector.Common.Int.{pos}
use ai_cyber_threat_detector.Access.Auth.{
  Principal, Credentials, granted, require_scope, verify_auth,
}
use ai_cyber_threat_detector.Api.Alerts.{
  Alert, Answer, ok, error, older, alerts_page, get_alerts, authorized, guarded, check_cursor,
  check_limit,
}
use ai_cyber_threat_detector.Api.Listing.{
  IsDescending, older-IsDescending, older-All, older-older, older_below, last_id-le, last_id,
  older-last_id, Mem-older→, Mem-older, descending_unique,
}

-- the primary key: no two rows have the same id
abbrev pub IsKeyed : List Alert → Type 0
IsKeyed [] = Unit
IsKeyed (a ∷ rows) = All (λ b. b.id ≢ a.id) rows × IsKeyed rows

-- what ORDER BY id DESC does with rows of different ids: the same rows, each id below those before it
pub record IsOrdering (order : List Alert → List Alert) : Type 0 where
  pub descends : (rows : List Alert) → IsKeyed rows → IsDescending (order rows)
  pub keeps : (rows : List Alert) (a : Alert) → IsKeyed rows → Memᴰ a (order rows) ↔ Memᴰ a rows

module _ (c : ℕ) where
  older-IsKeyed : (rows : List Alert) → IsKeyed rows → IsKeyed (older c rows)
  unfolding older
  older-IsKeyed [] h = tt
  older-IsKeyed (a ∷ rows) h = elim (Bool-cases (ltb a.id c)) [
    | inl e ↦ rw e (older-All (λ b. b.id ≢ a.id) c rows h.0, older-IsKeyed rows h.1)
    | inr e ↦ rw e (older-IsKeyed rows h.1)
  ]

module _ (order : List Alert → List Alert) (ordering : IsOrdering order) (table : List Alert)
    (keyed : IsKeyed table) where
  -- the cursor may be applied after the ordering
  order-older : (c : ℕ) → order (older c table) ≡ older c (order table)
  order-older c =
      let narrow : IsKeyed (older c table) = older-IsKeyed c table keyed in
      descending_unique (order (older c table)) (older c (order table))
        (ordering.descends (older c table) narrow)
        (older-IsDescending c (order table) (ordering.descends table keyed))
        λ x. (
          (λ m.
              let (lo, there) =
                Mem-older→ c x table ((ordering.keeps (older c table) x narrow).0 m) in
              Mem-older c x (order table) lo ((ordering.keeps table x keyed).1 there)),
          (λ m.
              let (lo, there) = Mem-older→ c x (order table) m in
              (ordering.keeps (older c table) x narrow).1
                (Mem-older c x table lo ((ordering.keeps table x keyed).0 there))),
        )

-- A client that asks for page after page, each time below the last id it saw, until a page is empty. `none`: an
-- error, or `rounds` requests were not enough.
unfoldable pub follow :
    (request : ℕ → Answer (List Alert)) → (rounds cursor : ℕ) → Option (List Alert)
follow request zero cursor = none
follow request (suc rounds) cursor = elim (request cursor) [
  | error status_code ↦ none
  | ok [] ↦ some []
  | ok (a ∷ rows) ↦ elim (follow request rounds (last_id cursor (a ∷ rows))) [
    | none ↦ none
    | some later ↦ some ((a ∷ rows) ++ later)
  ]
]

take-drop : {A : Type 0} (n : ℕ) (xs : List A) → take n xs ++ drop n xs ≡ xs
take-drop zero xs = refl
take-drop (suc n) [] = refl
take-drop (suc n) (x ∷ xs) = ap (◌∷◌ x) (take-drop n xs)

All-drop : (n : ℕ) (rows : List Alert) → IsDescending rows → IsDescending (drop n rows)
All-drop zero rows h = h
All-drop (suc n) [] h = h
All-drop (suc n) (a ∷ rows) h = All-drop n rows h.1

last_id_positive :
    (c m : ℕ) (rows : List Alert) → 0 < c → All (λ b. 0 < b.id) rows → 0 < last_id c (take m rows)
unfolding last_id
last_id_positive c zero rows p h = p
last_id_positive c (suc m) [] p h = p
last_id_positive c (suc m) (a ∷ rows) p h = last_id_positive a.id m rows h.0 h.1

-- what is left for a cursor of the rows `all`: 0 is the start
unfoldable left_over : ℕ → List Alert → List Alert
left_over c all = if ltb 0 c then older c all else all

module _ (all : List Alert) (descending : IsDescending all)
    (positive : All (λ b. 0 < b.id) all) where
  left_over-IsDescending : (c : ℕ) → IsDescending (left_over c all)
  unfolding left_over
  left_over-IsDescending c = elim (Bool-cases (ltb 0 c)) [
    | inl e ↦ rw e (older-IsDescending c all descending)
    | inr e ↦ rw e descending
  ]

  left_over_positive : (c : ℕ) → All (λ b. 0 < b.id) (left_over c all)
  unfolding left_over
  left_over_positive c = elim (Bool-cases (ltb 0 c)) [
    | inl e ↦ rw e (older-All (λ b. 0 < b.id) c all positive)
    | inr e ↦ rw e positive
  ]

  -- a page of the rows that are left, and its last id as the next cursor
  left_over-last_id :
      (c m : ℕ) (a : Alert) (rows : List Alert)
      → left_over c all ≡ a ∷ rows
      → left_over (last_id c (take (suc m) (a ∷ rows))) all ≡ drop (suc m) (a ∷ rows)
  unfolding left_over last_id
  left_over-last_id c m a rows e =
      let p : IsDescending (a ∷ rows) = rw e at (left_over-IsDescending c) in
      let q : All (λ b. 0 < b.id) (a ∷ rows) = rw e at (left_over_positive c) in
      let d = last_id a.id (take m rows) in
      let low : d ≤ a.id = last_id-le a.id m rows p.0 p.1 in
      let up : ltb 0 d ≡ true = lt→ltb 0 d (last_id_positive a.id m rows q.0 q.1) in
      let here : older d (a ∷ rows) ≡ drop m rows = older-last_id c m a rows p in
      rw up (elim (Bool-cases (ltb 0 c)) [
        | inl f ↦
            let g : older c all ≡ a ∷ rows = rw f at e in
            let below_c : All (λ b. b.id < c) (a ∷ rows) = rw g at (older_below c all) in
            sym (older-older d c all (omega (arith, low, below_c.0))) ∙ ap (older d) g ∙ here
        | inr f ↦ ap (older d) (rw f at e) ∙ here
      ])

  module _ (request : ℕ → Answer (List Alert)) (m : ℕ)
      (answers : (c : ℕ) → request c ≡ ok (take (suc m) (left_over c all))) where
    follow_from :
        (rounds c : ℕ) (rows : List Alert)
        → left_over c all ≡ rows
        → length rows < rounds
        → follow request rounds c ≡ some rows
    unfolding follow
    follow_from zero c rows e enough = absurd (omega arith)
    follow_from (suc rounds) c [] e enough = rw (answers c, e, follow) refl
    follow_from (suc rounds) c (a ∷ rows) e enough =
        let later : follow request rounds (last_id c (take (suc m) (a ∷ rows)))
            ≡ some (drop m rows) =
          follow_from rounds (last_id c (take (suc m) (a ∷ rows))) (drop m rows)
            (left_over-last_id c m a rows e) (omega (arith, length-drop m rows)) in
        rw (answers c, e, later, follow) (ap (λ r. some (a ∷ r)) (take-drop m rows))

module _ (order : List Alert → List Alert) (ordering : IsOrdering order) (table : List Alert)
    (keyed : IsKeyed table) (positive : All (λ b. 0 < b.id) table) where
  order_positive : All (λ b. 0 < b.id) (order table)
  order_positive =
      Mem-All (λ b. 0 < b.id) (order table)
        λ x m. All-Mem (λ b. 0 < b.id) table x positive ((ordering.keeps table x keyed).0 m)

  page_of : (c n : ℕ) → alerts_page order c n table ≡ take n (left_over c (order table))
  unfolding alerts_page left_over
  page_of c n = elim (Bool-cases (ltb 0 c)) [
    | inl e ↦ rw e (ap (take n) (order-older order ordering table keyed c))
    | inr e ↦ rw e refl
  ]

  module _ (api_key : String) (verify_token : String → Option Principal) (c : Credentials)
      (p : Principal) where
    -- A client with the scope "alerts:read" that follows the cursor from 0 is done after at most one request more than
    -- there are rows, and has then read every row exactly once, newest first, whatever page size of 1 to 100 it takes. The ids
    -- are those of a primary key and positive.
    pub follow-get_alerts :
        (m rounds : ℕ)
        → m < 100
        → verify_auth api_key verify_token c ≡ granted p
        → require_scope api_key verify_token "alerts:read" c ≡ granted p
        → length (order table) < rounds
        → follow
            (λ cursor.
              get_alerts api_key verify_token order c
                (some (pos cursor))
                (some (pos (suc m)))
                table)
            rounds
            0
          ≡ some (order table)
    unfolding get_alerts authorized guarded check_cursor check_limit left_over
    follow-get_alerts m rounds small auth scope enough =
        follow_from (order table) (ordering.descends table keyed) order_positive
          (λ cursor.
            get_alerts api_key verify_token order c (some (pos cursor)) (some (pos (suc m))) table)
          m
          (λ cursor.
            rw
              (
                auth,
                scope,
                guarded,
                lt→ltb 0 (suc m) (omega arith),
                lt→ltb (suc m) 101 (omega arith),
              )
              (ap ok (page_of cursor (suc m))))
          rounds 0 (order table) refl enough
