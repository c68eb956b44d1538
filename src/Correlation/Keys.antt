-- ===== src/Correlation/Keys.antt =====
-- The four keys of one window must differ. Each script names two of them, and derives two.
use ai_cyber_threat_detector.Common.{◌≡◌, ◌≢◌, false, String, str_eq, eq_iff, Bool-cases, inl, inr}
use ai_cyber_threat_detector.Correlation.Scripts.{Call, seen_key, count_key}

pub str_eq_of_ne : (s t : String) → s ≢ t → str_eq s t ≡ false
str_eq_of_ne s t h = elim (Bool-cases (str_eq s t)) [
  | inl e ↦ absurd (h ((eq_iff s t).0 e))
  | inr e ↦ e
]

-- the keys of a call differ, both ways round, as the maps of a view ask
pub record IsSeparate (c : Call) : Type 0 where
  pub key_seen : str_eq c.key_name (seen_key c.key_name) ≡ false
  pub key_count : str_eq c.key_name (count_key c.key_name) ≡ false
  pub key_dedup : str_eq c.key_name c.dedup_name ≡ false
  pub seen_key' : str_eq (seen_key c.key_name) c.key_name ≡ false
  pub seen_count : str_eq (seen_key c.key_name) (count_key c.key_name) ≡ false
  pub seen_dedup : str_eq (seen_key c.key_name) c.dedup_name ≡ false
  pub count_key' : str_eq (count_key c.key_name) c.key_name ≡ false
  pub count_seen : str_eq (count_key c.key_name) (seen_key c.key_name) ≡ false
  pub count_dedup : str_eq (count_key c.key_name) c.dedup_name ≡ false
  pub dedup_key : str_eq c.dedup_name c.key_name ≡ false
  pub dedup_seen : str_eq c.dedup_name (seen_key c.key_name) ≡ false
  pub dedup_count : str_eq c.dedup_name (count_key c.key_name) ≡ false
