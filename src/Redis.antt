-- ===== src/Redis.antt =====
-- Redis, as inference/correlation.py uses it: a service that the Lua scripts talk to. It is a parameter of the
-- model, `Redis`: a type of states, the commands of the two scripts, and for each command its
-- documented effect on what can be read. A `View` is all that the commands can read of a state.
-- Time stands still while a script runs, so a time to live only changes by a command here.
pub mod Memory
use Prim.Native.String.{String, compare as compare_text}
use ai_cyber_threat_detector.Common.{
  ℕ, suc, zero, ◌+◌, ◌-◌, ◌≡◌, Bool, true, false, Option, none, some, List, [], ◌∷◌, Ordering,
  if◌then◌else◌, ltb, ◌==◌, str_eq, ◌||◌, ◌&&◌, take, is_empty, or_else,
}

-- Lists by key (the head was pushed last), sorted sets by key (in rank order), numbers kept as
-- strings, and the remaining times to live (`none`: no expiry).
pub record View : Type 0 where
  pub lists : String → List String
  pub zsets : String → List (ℕ × String)
  pub nums : String → Option ℕ
  pub ttls : String → Option ℕ

module _ {ℓ} {V : Type ℓ} where
  abbrev pub at : (String → V) → String → V → String → V
  at f k v j = if str_eq k j then v else f j

-- The rank order of a sorted set: by score, then by the members' bytes.
unfoldable pub before : ℕ × String → ℕ × String → Bool
before (a, s) (b, t) =
    ltb a b || ((a == b) && (elim (compare_text s t) [ Ordering.lt ↦ true | _ ↦ false ]))

unfoldable pub zinsert : ℕ × String → List (ℕ × String) → List (ℕ × String)
zinsert e [] = e ∷ []
zinsert e (f ∷ z) = let rest = zinsert e z in if before e f then e ∷ f ∷ z else f ∷ rest

unfoldable pub zwithout : String → List (ℕ × String) → List (ℕ × String)
zwithout m [] = []
zwithout m ((n, j) ∷ z) = let rest = zwithout m z in if str_eq j m then rest else (n, j) ∷ rest

unfoldable pub zmember : String → List (ℕ × String) → Bool
zmember m [] = false
zmember m ((n, j) ∷ z) = str_eq j m || zmember m z

-- `lrem key 1 v`: the first entry that equals `v`
unfoldable pub lwithout : String → List String → List String
lwithout v [] = []
lwithout v (w ∷ l) = let rest = lwithout v l in if str_eq w v then l else w ∷ rest

unfoldable pub lcount : String → List String → ℕ
lcount v [] = 0
lcount v (w ∷ l) = if str_eq w v then suc (lcount v l) else lcount v l

abbrev pub tail_of : List (ℕ × String) → List (ℕ × String)
tail_of [] = []
tail_of (e ∷ z) = z

-- a key whose value has become empty is gone, and its expiry with it
abbrev pub kept {ℓ} : {A : Type ℓ} → List A → Option ℕ → Option ℕ
kept [] t = none
kept (x ∷ xs) t = t

-- What each write does to the view.
unfoldable pub view_zadd : String → ℕ → String → View → View
view_zadd k n m v = record v { zsets = at v.zsets k (zinsert (n, m) (zwithout m (v.zsets k))) }

unfoldable pub view_zpop : String → View → View
view_zpop k v =
    let z = tail_of (v.zsets k) in
    record v { zsets = at v.zsets k z; ttls = at v.ttls k (kept z (v.ttls k)) }

unfoldable pub view_zrem : String → String → View → View
view_zrem k m v =
    let z = zwithout m (v.zsets k) in
    record v { zsets = at v.zsets k z; ttls = at v.ttls k (kept z (v.ttls k)) }

unfoldable pub view_expire : String → ℕ → View → View
view_expire k w v = record v { ttls = at v.ttls k (some w) }

unfoldable pub view_lpush : String → String → View → View
view_lpush k x v = record v { lists = at v.lists k (x ∷ v.lists k) }

unfoldable pub view_ltrim : String → ℕ → View → View
view_ltrim k n v = record v { lists = at v.lists k (take n (v.lists k)) }

unfoldable pub view_lrem : String → String → View → View
view_lrem k x v =
    let l = lwithout x (v.lists k) in
    record v { lists = at v.lists k l; ttls = at v.ttls k (kept l (v.ttls k)) }

unfoldable pub view_incr : String → View → View
view_incr k v = record v { nums = at v.nums k (some (or_else (v.nums k) 0 + 1)) }

unfoldable pub view_decr : String → View → View
view_decr k v = record v { nums = at v.nums k (some (or_else (v.nums k) 0 - 1)) }

unfoldable pub view_set : String → ℕ → ℕ → View → View
view_set k n w v = record v { nums = at v.nums k (some n); ttls = at v.ttls k (some w) }

-- here the deleted keys hold numbers
unfoldable pub view_del : String → View → View
view_del k v = record v { nums = at v.nums k none; ttls = at v.ttls k none }

pub record Redis : Type 1 where
  pub State : Type 0
  pub view : State → View
  pub zadd : String → ℕ → String → State → State
  -- `zremrangebyrank key 0 0`
  pub zpop : String → State → State
  pub zrem : String → String → State → State
  pub expire : String → ℕ → State → State
  pub lpush : String → String → State → State
  -- `ltrim key 0 (n - 1)`
  pub ltrim : String → ℕ → State → State
  -- `lrem key 1 value`
  pub lrem : String → String → State → State
  pub incr : String → State → State
  pub decr : String → State → State
  -- `set key number 'ex' seconds`
  pub set_ex : String → ℕ → ℕ → State → State
  pub del : String → State → State
  pub view-zadd :
      (k : String) (n : ℕ) (m : String) (s : State) → view (zadd k n m s) ≡ view_zadd k n m (view s)
  pub view-zpop : (k : String) (s : State) → view (zpop k s) ≡ view_zpop k (view s)
  pub view-zrem : (k m : String) (s : State) → view (zrem k m s) ≡ view_zrem k m (view s)
  pub view-expire :
      (k : String) (w : ℕ) (s : State) → view (expire k w s) ≡ view_expire k w (view s)
  pub view-lpush : (k x : String) (s : State) → view (lpush k x s) ≡ view_lpush k x (view s)
  pub view-ltrim : (k : String) (n : ℕ) (s : State) → view (ltrim k n s) ≡ view_ltrim k n (view s)
  pub view-lrem : (k x : String) (s : State) → view (lrem k x s) ≡ view_lrem k x (view s)
  pub view-incr : (k : String) (s : State) → view (incr k s) ≡ view_incr k (view s)
  pub view-decr : (k : String) (s : State) → view (decr k s) ≡ view_decr k (view s)
  pub view-set_ex :
      (k : String) (n w : ℕ) (s : State) → view (set_ex k n w s) ≡ view_set k n w (view s)
  pub view-del : (k : String) (s : State) → view (del k s) ≡ view_del k (view s)
