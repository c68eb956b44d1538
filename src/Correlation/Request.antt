-- ===== src/Correlation/Request.antt =====
-- The calls of inference/correlation.py meet what the theorems on the scripts ask.
use Prim.Native.Char.{code}
use Prim.Native.String.{◌++◌, count}
use text.Mathlib.TextLemmas.{append_assoc, append_cancel_left, cons-append}
use ai_cyber_threat_detector.Common.{
  ℕ, ◌≤◌, ◌<◌, ◌≡◌, refl, sym, ◌∙◌, ap, false, Option, some, String, str_eq, eq_iff, ltb,
  Bool-cases, Option-cases, inl, inr, arith,
}
use ai_cyber_threat_detector.Common.Text.{strip}
use ai_cyber_threat_detector.Common.Dict
use ai_cyber_threat_detector.Correlation.Scripts.{Call, seen_key, count_key}
use ai_cyber_threat_detector.Correlation.Keys.{IsSeparate, str_eq_of_ne}
use ai_cyber_threat_detector.Correlation.Alert.{
  Alert, safe_threat, key_name, dedup_name, sev_score, correlate_call,
}

-- two texts with the same start differ if what follows does
str_eq-append_left : (p s t : String) → str_eq s t ≡ false → str_eq (p ++ s) (p ++ t) ≡ false
str_eq-append_left p s t h =
    str_eq_of_ne (p ++ s) (p ++ t) (λ e. cc ((eq_iff s t).1 (append_cancel_left p s t e), h))

-- the four keys of an address, after the address
abbrev tail_dedup : String → String
tail_dedup safe = "}:dedup:" ++ safe

-- the third character's code
third : String → ℕ
third String.[] = 0
third (String.◌∷◌ a s) = second s
  where
    first : String → ℕ
    first String.[] = 0
    first (String.◌∷◌ c s) = code c

    second : String → ℕ
    second String.[] = 0
    second (String.◌∷◌ b s) = first s

third-tail_dedup : (safe : String) → third (tail_dedup safe) ≡ 100
unfolding third
third-tail_dedup safe = ap third (
    cons-append "}" ":dedup:" safe
    ∙ ap (String.◌∷◌ "}")
        (cons-append ":" "dedup:" safe ∙ ap (String.◌∷◌ ":") (cons-append "d" "edup:" safe)))

dedup_differs : (s safe : String) → third s ≡ 97 → str_eq s (tail_dedup safe) ≡ false
dedup_differs s safe h =
    str_eq_of_ne s (tail_dedup safe) (λ e. omega (arith, h, ap third e, third-tail_dedup safe))

dedup_differs' : (s safe : String) → third s ≡ 97 → str_eq (tail_dedup safe) s ≡ false
dedup_differs' s safe h =
    str_eq_of_ne (tail_dedup safe) s (λ e. omega (arith, h, ap third e, third-tail_dedup safe))

module _ (ip safe : String) where
  dedup_split : dedup_name ip safe ≡ ("{" ++ ip) ++ tail_dedup safe
  dedup_split = append_assoc ("{" ++ ip) "}:dedup:" safe

  seen_split : seen_key (key_name ip) ≡ ("{" ++ ip) ++ "}:alerts:seen"
  seen_split = append_assoc ("{" ++ ip) "}:alerts" ":seen"

  count_split : count_key (key_name ip) ≡ ("{" ++ ip) ++ "}:alerts:cnt"
  count_split = append_assoc ("{" ++ ip) "}:alerts" ":cnt"

  call-IsSeparate :
      (c : Call) → c.key_name ≡ key_name ip → c.dedup_name ≡ dedup_name ip safe → IsSeparate c
  unfolding third
  call-IsSeparate c k d = record {
    key_seen = rw k (rw seen_split (apart "}:alerts" "}:alerts:seen" refl));
    key_count = rw k (rw count_split (apart "}:alerts" "}:alerts:cnt" refl));
    key_dedup =
        rw (k, d)
          (rw dedup_split
            (apart "}:alerts" (tail_dedup safe) (dedup_differs "}:alerts" safe refl)));
    seen_key' = rw k (rw seen_split (apart "}:alerts:seen" "}:alerts" refl));
    seen_count = rw k (rw (seen_split, count_split) (apart "}:alerts:seen" "}:alerts:cnt" refl));
    seen_dedup =
        rw (k, d)
          (rw (seen_split, dedup_split)
            (apart "}:alerts:seen" (tail_dedup safe) (dedup_differs "}:alerts:seen" safe refl)));
    count_key' = rw k (rw count_split (apart "}:alerts:cnt" "}:alerts" refl));
    count_seen = rw k (rw (seen_split, count_split) (apart "}:alerts:cnt" "}:alerts:seen" refl));
    count_dedup =
        rw (k, d)
          (rw (count_split, dedup_split)
            (apart "}:alerts:cnt" (tail_dedup safe) (dedup_differs "}:alerts:cnt" safe refl)));
    dedup_key =
        rw (k, d)
          (rw dedup_split
            (apart (tail_dedup safe) "}:alerts" (dedup_differs' "}:alerts" safe refl)));
    dedup_seen =
        rw (k, d)
          (rw (seen_split, dedup_split)
            (apart (tail_dedup safe) "}:alerts:seen" (dedup_differs' "}:alerts:seen" safe refl)));
    dedup_count =
        rw (k, d)
          (rw (count_split, dedup_split)
            (apart (tail_dedup safe) "}:alerts:cnt" (dedup_differs' "}:alerts:cnt" safe refl)));
  }
    where
      apart :
          (s t : String) → str_eq s t ≡ false → str_eq (("{" ++ ip) ++ s) (("{" ++ ip) ++ t) ≡ false
      apart s t h = str_eq-append_left ("{" ++ ip) s t h

sev_score_bounds : (severity : String) → (0 < sev_score severity) × (sev_score severity ≤ 100)
unfolding sev_score Dict.get
sev_score_bounds severity = (ground arith, ground arith)

Option-injective : {A : Type 0} {a b : A} → some a ≡ some b → a ≡ b
Option-injective e = cc e

-- Every alert that `add_alert` lets through, whatever texts it carries, calls the script with four keys that differ
-- and a positive weight of at most 100.
pub correlate_call-IsSeparate :
    (ip_text : String → Option String) (alert : Alert) (c : Call)
    → correlate_call ip_text alert ≡ some c
    → IsSeparate c × (0 < c.severity_score) × (c.severity_score ≤ 100)
unfolding correlate_call
correlate_call-IsSeparate ip_text alert c h =
    elim (Option-cases (ip_text (strip alert.source_ip))) [
      | inl e ↦ absurd (cc (rw (e, correlate_call) at h))
      | inr (ip, e) ↦ elim (Bool-cases (ltb 45 (count ip))) [
        | inl f ↦ absurd (cc (rw f at (rw (e, correlate_call) at h)))
        | inr f ↦
            let same = Option-injective (rw f at (rw (e, correlate_call) at h)) in
            let (pos, bound) = sev_score_bounds alert.severity in
            (
              call-IsSeparate ip (safe_threat alert.threat_class) c
                  (sym (ap (λ d. d.key_name) same)) (sym (ap (λ d. d.dedup_name) same)),
              rw (sym (ap (λ d. d.severity_score) same)) pos,
              rw (sym (ap (λ d. d.severity_score) same)) bound,
            )
      ]
    ]
