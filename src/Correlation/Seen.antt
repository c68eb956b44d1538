-- ===== src/Correlation/Seen.antt =====
-- Facts on the sorted set of ids that have been seen.
use ai_cyber_threat_detector.Common.{
  ℕ, suc, ◌≤◌, ◌≡◌, refl, true, false, List, [], ◌∷◌, String, length, arith, eq_refl,
}
use ai_cyber_threat_detector.Redis.{zinsert, zwithout, zmember, tail_of}

pub length-zinsert :
    (e : ℕ × String) (z : List (ℕ × String)) → length (zinsert e z) ≡ suc (length z)
unfolding zinsert
length-zinsert e [] = refl
length-zinsert e (f ∷ z) = ground (arith, length-zinsert e z)

pub length-zwithout-le : (m : String) (z : List (ℕ × String)) → length (zwithout m z) ≤ length z
unfolding zwithout
length-zwithout-le m [] = omega arith
length-zwithout-le m ((n, j) ∷ z) = ground (arith, length-zwithout-le m z)

pub zmember-zinsert :
    (n : ℕ) (m : String) (z : List (ℕ × String)) → zmember m (zinsert (n, m) z) ≡ true
unfolding zinsert zmember
zmember-zinsert n m [] = ground (arith, eq_refl m)
zmember-zinsert n m (f ∷ z) = ground (arith, eq_refl m, zmember-zinsert n m z)

pub zwithout_absent : (m : String) (z : List (ℕ × String)) → zmember m z ≡ false → zwithout m z ≡ z
unfolding zwithout zmember
zwithout_absent m [] h = refl
zwithout_absent m ((n, j) ∷ z) h = ground (arith, zwithout_absent m z)

pub zwithout-zinsert :
    (n : ℕ) (m : String) (z : List (ℕ × String))
    → zmember m z ≡ false
    → zwithout m (zinsert (n, m) z) ≡ z
unfolding zinsert zwithout zmember
zwithout-zinsert n m [] h = ground (arith, eq_refl m)
zwithout-zinsert n m ((k, j) ∷ z) h =
    ground (arith, eq_refl m, zwithout-zinsert n m z, zwithout_absent m z)

-- with the id dropped first, at most one entry more
pub length-tail_of-le : (z : List (ℕ × String)) → length (tail_of z) ≤ length z
length-tail_of-le [] = omega arith
length-tail_of-le (e ∷ z) = omega arith

pub length-tail_of : (z : List (ℕ × String)) {n : ℕ} → length z ≤ suc n → length (tail_of z) ≤ n
length-tail_of [] h = omega arith
length-tail_of (e ∷ z) h = omega arith
