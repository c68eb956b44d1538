-- ===== src/Sink/Offsets.antt =====
-- The offset maps of the sink, by partition. The source reads a missing entry as -1. Here it is 0: every
-- entry is an offset plus one, so both lie below all of them.
use ai_cyber_threat_detector.Common.{
  ℕ, ◌+◌, ◌≡◌, refl, List, [], ◌∷◌, max, ltb, ◌==◌, if◌then◌else◌, arith,
}

abbrev pub Offsets : Type 0
Offsets = List (ℕ × ℕ)

unfoldable pub get : Offsets → ℕ → ℕ
get [] tp = 0
get ((p, o) ∷ m) tp = if p == tp then o else get m tp

unfoldable pub put : Offsets → ℕ → ℕ → Offsets
put [] tp o = (tp, o) ∷ []
put ((p, n) ∷ m) tp o = let rest = put m tp o in if p == tp then (p, o) ∷ m else (p, n) ∷ rest

-- offsets[tp] = max(offsets.get(tp, -1), offset + 1)
unfoldable pub advance : Offsets → ℕ → ℕ → Offsets
advance m tp offset = put m tp (max (get m tp) (offset + 1))

-- m.update(new), and what a commit of `new` does to the broker's offsets
unfoldable pub update : Offsets → Offsets → Offsets
update m [] = m
update m ((tp, o) ∷ new) = update (put m tp o) new

-- the partitions observed beyond what was committed
unfoldable pub stale : Offsets → Offsets → Offsets
stale committed [] = []
stale committed ((tp, off) ∷ observed) =
    let rest = stale committed observed in
    if ltb (get committed tp) off then (tp, off) ∷ rest else rest

pub get-put : (m : Offsets) (p o q : ℕ) → get (put m p o) q ≡ (if p == q then o else get m q)
unfolding get put
get-put [] p o q = refl
get-put ((r, n) ∷ m) p o q = ground (arith, get-put m p o q)

pub get-advance :
    (m : Offsets) (p o q : ℕ)
    → get (advance m p o) q ≡ (if p == q then max (get m p) (o + 1) else get m q)
unfolding advance
get-advance m p o q = get-put m p (max (get m p) (o + 1)) q
