-- ===== src/Api/Listing.antt =====
-- Lists of rows in descending order of a key, and the tail of one that a cursor leaves.
use mathlib.Core.List.{Memᴰ}
use ai_cyber_threat_detector.Common.{
  ℕ, zero, suc, ◌≤◌, ◌<◌, ◌≡◌, ◌↔◌, refl, sym, ap, ◌∙◌, true, false, List, [], ◌∷◌, ltb, take, drop,
  All, All-Mem, arith, inl, inr, Bool-cases, ltb→lt, lt→ltb,
}
use ai_cyber_threat_detector.Api.Alerts.{Alert, older}

-- every id is below the ids before it
abbrev pub IsDescending : List Alert → Type 0
IsDescending [] = Unit
IsDescending (a ∷ rows) = All (λ b. b.id < a.id) rows × IsDescending rows

pub older-All : (P : Alert → Type 0) (c : ℕ) (rows : List Alert) → All P rows → All P (older c rows)
unfolding older
older-All P c [] h = tt
older-All P c (a ∷ rows) h = elim (Bool-cases (ltb a.id c)) [
  | inl e ↦ rw e (h.0, older-All P c rows h.1)
  | inr e ↦ rw e (older-All P c rows h.1)
]

pub older-IsDescending :
    (c : ℕ) (rows : List Alert) → IsDescending rows → IsDescending (older c rows)
unfolding older
older-IsDescending c [] h = tt
older-IsDescending c (a ∷ rows) h = elim (Bool-cases (ltb a.id c)) [
  | inl e ↦ rw e (older-All (λ b. b.id < a.id) c rows h.0, older-IsDescending c rows h.1)
  | inr e ↦ rw e (older-IsDescending c rows h.1)
]

-- a cursor above every id takes all
pub older_whole : (c : ℕ) (rows : List Alert) → All (λ b. b.id < c) rows → older c rows ≡ rows
unfolding older
older_whole c [] h = refl
older_whole c (a ∷ rows) h = rw (lt→ltb a.id c h.0) (ap (◌∷◌ a) (older_whole c rows h.1))

-- the id on which the next request of a client goes on
unfoldable pub last_id : ℕ → List Alert → ℕ
last_id c [] = c
last_id c (a ∷ rows) = last_id a.id rows

pub last_id-le :
    (c m : ℕ) (rows : List Alert)
    → All (λ b. b.id < c) rows
    → IsDescending rows
    → last_id c (take m rows) ≤ c
unfolding last_id
last_id-le c zero rows h p = omega arith
last_id-le c (suc m) [] h p = omega arith
last_id-le c (suc m) (a ∷ rows) h p = omega (arith, h.0, last_id-le a.id m rows p.0 p.1)

-- what is older than the last row of a page is what follows the page
pub older-last_id :
    (c m : ℕ) (a : Alert) (rows : List Alert)
    → IsDescending (a ∷ rows)
    → older (last_id c (take (suc m) (a ∷ rows))) (a ∷ rows) ≡ drop (suc m) (a ∷ rows)
unfolding last_id older
older-last_id c zero a rows p =
    let itself : ltb a.id a.id ≡ false = ground arith in rw itself (older_whole a.id rows p.0)
older-last_id c (suc m) a [] p = let itself : ltb a.id a.id ≡ false = ground arith in rw itself refl
older-last_id c (suc m) a (b ∷ rows) p =
    let low : last_id b.id (take m rows) ≤ b.id = last_id-le b.id m rows p.1.0 p.1.1 in
    let out : ltb a.id (last_id b.id (take m rows)) ≡ false = ground (arith, p.0.0) in
    rw out (older-last_id c m b rows p.1)

pub Mem-older→ :
    (c : ℕ) (x : Alert) (rows : List Alert) → Memᴰ x (older c rows) → (x.id < c) × Memᴰ x rows
unfolding older
Mem-older→ c x [] m = elim m [ ]
Mem-older→ c x (a ∷ rows) m = elim (Bool-cases (ltb a.id c)) [
  | inl e ↦ elim (rw e at m) [
    | Memᴰ.head same ↦ (rw same (ltb→lt a.id c e), Memᴰ.head same)
    | Memᴰ.tail there ↦ let (lo, in_rows) = Mem-older→ c x rows there in (lo, Memᴰ.tail in_rows)
  ]
  | inr e ↦ let (lo, in_rows) = Mem-older→ c x rows (rw e at m) in (lo, Memᴰ.tail in_rows)
]

pub Mem-older :
    (c : ℕ) (x : Alert) (rows : List Alert) → x.id < c → Memᴰ x rows → Memᴰ x (older c rows)
unfolding older
Mem-older c x [] lo m = elim m [ ]
Mem-older c x (a ∷ rows) lo (Memᴰ.head same) =
    let e : ltb a.id c ≡ true = rw (← same) (lt→ltb x.id c lo) in rw e (Memᴰ.head same)
Mem-older c x (a ∷ rows) lo (Memᴰ.tail there) = elim (Bool-cases (ltb a.id c)) [
  | inl e ↦ rw e (Memᴰ.tail (Mem-older c x rows lo there))
  | inr e ↦ rw e (Mem-older c x rows lo there)
]

heads_agree :
    (x y : Alert) (xs ys : List Alert)
    → IsDescending (x ∷ xs)
    → IsDescending (y ∷ ys)
    → Memᴰ x (y ∷ ys)
    → Memᴰ y (x ∷ xs)
    → x ≡ y
heads_agree x y xs ys p q (Memᴰ.head e) n = e
heads_agree x y xs ys p q (Memᴰ.tail m) (Memᴰ.head e) = sym e
heads_agree x y xs ys p q (Memᴰ.tail m) (Memᴰ.tail n) =
    absurd
      (omega (arith, All-Mem (λ b. b.id < y.id) ys x q.0 m, All-Mem (λ b. b.id < x.id) xs y p.0 n))

-- a row of a descending list other than its head is in the tail of any list of the same rows
beyond :
    (x y z : Alert) (xs ys : List Alert)
    → IsDescending (x ∷ xs)
    → x ≡ y
    → Memᴰ z xs
    → Memᴰ z (y ∷ ys)
    → Memᴰ z ys
beyond x y z xs ys p e m (Memᴰ.head same) =
    let low : z.id < x.id = All-Mem (λ b. b.id < x.id) xs z p.0 m in
    let equal : z.id ≡ x.id = ap (λ b. b.id) (same ∙ sym e) in absurd (omega (arith, low, equal))
beyond x y z xs ys p e m (Memᴰ.tail n) = n

pub older-older : (d c : ℕ) (rows : List Alert) → d ≤ c → older d (older c rows) ≡ older d rows
unfolding older
older-older d c [] le = refl
older-older d c (a ∷ rows) le = elim (Bool-cases (ltb a.id c)) [
  | inl e ↦ elim (Bool-cases (ltb a.id d)) [
    | inl f ↦ rw (e, f) (ap (◌∷◌ a) (older-older d c rows le))
    | inr f ↦ rw (e, f) (older-older d c rows le)
  ]
  | inr e ↦ let f : ltb a.id d ≡ false = ground (arith, e) in rw (e, f) (older-older d c rows le)
]

pub older_below : (c : ℕ) (rows : List Alert) → All (λ b. b.id < c) (older c rows)
unfolding older
older_below c [] = tt
older_below c (a ∷ rows) = elim (Bool-cases (ltb a.id c)) [
  | inl e ↦ rw e (ltb→lt a.id c e, older_below c rows)
  | inr e ↦ rw e (older_below c rows)
]

-- there is one descending list of the same rows
pub descending_unique :
    (xs ys : List Alert)
    → IsDescending xs
    → IsDescending ys
    → ((x : Alert) → Memᴰ x xs ↔ Memᴰ x ys)
    → xs ≡ ys
descending_unique [] [] p q same = refl
descending_unique [] (y ∷ ys) p q same = elim ((same y).1 (Memᴰ.head refl)) [ ]
descending_unique (x ∷ xs) [] p q same = elim ((same x).0 (Memᴰ.head refl)) [ ]
descending_unique (x ∷ xs) (y ∷ ys) p q same =
    let e : x ≡ y =
      heads_agree x y xs ys p q ((same x).0 (Memᴰ.head refl)) ((same y).1 (Memᴰ.head refl)) in
    let rest : xs ≡ ys = descending_unique xs ys p.1 q.1 λ z. (
      (λ m. beyond x y z xs ys p e m ((same z).0 (Memᴰ.tail m))),
      (λ m. beyond y x z ys xs q (sym e) m ((same z).1 (Memᴰ.tail m))),
    ) in
    ap (λ b. b ∷ xs) e ∙ ap (◌∷◌ y) rest
