-- ===== src/Playbooks/Marks.antt =====
-- The placeholders of the templates of inference/playbooks.py, and that no two begin alike.
use Prim.Native.Char.{code}
use Prim.Native.String.{◌++◌}
use text.Mathlib.TextLemmas.{cons-append}
use ai_cyber_threat_detector.Common.{
  ◌≡◌, refl, Bool, true, false, ◌&&◌, ◌||◌, not, List, [], ◌∷◌, String, if◌then◌else◌, ◌==◌,
  Bool-cases, inl, inr,
}
use ai_cyber_threat_detector.Common.Text.{starts_with}

pub data Key : Type 0 where
  src_ip dst_ip dst_port domain ja3_hash : Key

abbrev pub name : Key → String
name src_ip = "src_ip"
name dst_ip = "dst_ip"
name dst_port = "dst_port"
name domain = "domain"
name ja3_hash = "ja3_hash"

-- "{" + name + "}"
abbrev pub mark : Key → String
mark src_ip = "{src_ip}"
mark dst_ip = "{dst_ip}"
mark dst_port = "{dst_port}"
mark domain = "{domain}"
mark ja3_hash = "{ja3_hash}"

pub data Part : Type 0 where
  literal : String → Part
  hole : Key → Part

-- no opening brace
unfoldable pub is_plain : String → Bool
is_plain String.[] = true
is_plain (String.◌∷◌ c s) = not (code c == 123) && is_plain s

abbrev pub IsPlain : Part → Type 0
IsPlain (literal s) = is_plain s ≡ true
IsPlain (hole k) = Unit

abbrev pub render : List Part → String
render [] = ""
render (literal s ∷ parts) = s ++ render parts
render (hole k ∷ parts) = mark k ++ render parts

abbrev pub same : Key → Key → Bool
same src_ip src_ip = true
same dst_ip dst_ip = true
same dst_port dst_port = true
same domain domain = true
same ja3_hash ja3_hash = true
same _ _ = false

-- the parts after a placeholder got its value
abbrev pub fill : Key → String → Part → Part
fill k v (literal s) = literal s
fill k v (hole j) = if same k j then literal v else hole j

-- a difference before either text ends
abbrev pub clash : String → String → Bool
clash String.[] q = false
clash (String.◌∷◌ c p) String.[] = false
clash (String.◌∷◌ c p) (String.◌∷◌ d q) = not (code c == code d) || clash p q

pub marks_clash : (k j : Key) → same k j ≡ false → clash (mark k) (mark j) ≡ true
marks_clash src_ip src_ip h = absurd (cc h)
marks_clash src_ip dst_ip h = refl
marks_clash src_ip dst_port h = refl
marks_clash src_ip domain h = refl
marks_clash src_ip ja3_hash h = refl
marks_clash dst_ip src_ip h = refl
marks_clash dst_ip dst_ip h = absurd (cc h)
marks_clash dst_ip dst_port h = refl
marks_clash dst_ip domain h = refl
marks_clash dst_ip ja3_hash h = refl
marks_clash dst_port src_ip h = refl
marks_clash dst_port dst_ip h = refl
marks_clash dst_port dst_port h = absurd (cc h)
marks_clash dst_port domain h = refl
marks_clash dst_port ja3_hash h = refl
marks_clash domain src_ip h = refl
marks_clash domain dst_ip h = refl
marks_clash domain dst_port h = refl
marks_clash domain domain h = absurd (cc h)
marks_clash domain ja3_hash h = refl
marks_clash ja3_hash src_ip h = refl
marks_clash ja3_hash dst_ip h = refl
marks_clash ja3_hash dst_port h = refl
marks_clash ja3_hash domain h = refl
marks_clash ja3_hash ja3_hash h = absurd (cc h)

pub starts_with-clash : (p q s : String) → clash p q ≡ true → starts_with p (q ++ s) ≡ false
unfolding starts_with
starts_with-clash String.[] q s h = absurd (cc h)
starts_with-clash (String.◌∷◌ c p) String.[] s h = absurd (cc h)
starts_with-clash (String.◌∷◌ c p) (String.◌∷◌ d q) s h = elim (Bool-cases (code c == code d)) [
  | inl f ↦ rw (cons-append d q s) (rw f (starts_with-clash p q s (rw f at h)))
  | inr f ↦ rw (cons-append d q s) (rw f refl)
]
