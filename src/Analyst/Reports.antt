-- ===== src/Analyst/Reports.antt =====
-- src/incidentAnalyst.ts: which report a delivery that is found gets, and what the audit keeps.
use engineering_with_effect.Prelude.{
  ℕ, zero, suc, ◌-◌, ◌≤◌, ◌≡◌, refl, sym, ap, ◌∙◌, inl, inr, true, none, some, List, [], ◌∷◌, ◌++◌,
  arith, ltb, Bool, Bool-cases, length, length-append, drop, Text, Result, ok, err,
}
use mathlib.Core.List.{append_assoc, append-nil}
use engineering_with_effect.Analyst.{
  IncidentEvidence, IncidentSuggestion, IncidentAnalysisReport, fallback_summary,
  is_valid_suggestion, suggestion_of, append, last_of, audit_capacity, model,
  deterministic_fallback,
}

-- What the report says of its suggestion's origin, by the model's answer.
abbrev pub IsOf :
    IncidentEvidence → Result Text IncidentSuggestion → IncidentAnalysisReport → Type 0
IsOf e (ok s) r = (r.source ≡ model) × (r.model_failure ≡ none) × (r.suggestion ≡ s)
IsOf e (err reason) r =
    (r.source ≡ deterministic_fallback)
    × (r.model_failure ≡ some reason)
    × (r.suggestion ≡ suggestion_of (fallback_summary e))

-- An answer that a report can hold: a failure, or a suggestion within the schema's bounds.
abbrev pub is_usable : Result Text IncidentSuggestion → Bool
is_usable (ok s) = is_valid_suggestion s
is_usable (err reason) = true

drop-append :
    {A : Type 0} (n : ℕ) (xs ys : List A) → n ≤ length xs → drop n (xs ++ ys) ≡ drop n xs ++ ys
drop-append zero xs ys h = refl
drop-append (suc n) [] ys h = absurd (omega arith)
drop-append (suc n) (x ∷ xs) ys h = drop-append n xs ys (omega arith)

drop-drop : {A : Type 0} (n : ℕ) (xs : List A) → drop 1 (drop n xs) ≡ drop (suc n) xs
drop-drop zero xs = refl
drop-drop (suc n) [] = refl
drop-drop (suc n) (x ∷ xs) = drop-drop n xs

length-drop : {A : Type 0} (n : ℕ) (xs : List A) → length (drop n xs) ≡ length xs - n
length-drop zero xs = omega arith
length-drop (suc n) [] = omega arith
length-drop (suc n) (x ∷ xs) = omega (arith, length-drop n xs)

append-last_of :
    (r : IncidentAnalysisReport) (xs : List IncidentAnalysisReport)
    → append r (last_of audit_capacity xs) ≡ last_of audit_capacity (xs ++ r ∷ [])
unfolding append
append-last_of r xs = elim (Bool-cases (ltb (length xs) 100)) [
  | inl y ↦
      let e : length xs - 100 ≡ 0 = ground arith in
      let f : length (xs ++ r ∷ []) - 100 ≡ 0 = ground (arith, length-append xs (r ∷ [])) in
      rw e (rw f (rw y refl))
  | inr n ↦
      let m = length xs - 100 in
      let d : length (drop m xs) ≡ 100 = ground (arith, length-drop m xs) in
      let f : length (xs ++ r ∷ []) - 100 ≡ suc m = ground (arith, length-append xs (r ∷ [])) in
      rw d (
        rw f (
          ap (λ ys. ys ++ r ∷ []) (drop-drop m xs)
          ∙ sym (drop-append (suc m) xs (r ∷ []) (ground arith))))
]

-- Reports in the order in which they are appended.
unfoldable pub append_all :
    List IncidentAnalysisReport → List IncidentAnalysisReport → List IncidentAnalysisReport
unfolding append
append_all [] audit = audit
append_all (r ∷ rs) audit = append_all rs (append r audit)

append_all-last_of :
    (rs xs : List IncidentAnalysisReport)
    → append_all rs (last_of audit_capacity xs) ≡ last_of audit_capacity (xs ++ rs)
unfolding append_all
append_all-last_of [] xs = ap (last_of audit_capacity) (sym (append-nil xs))
append_all-last_of (r ∷ rs) xs = rw (append-last_of r xs) (
    append_all-last_of rs (xs ++ r ∷ [])
    ∙ ap (last_of audit_capacity) (append_assoc xs (r ∷ []) rs))

-- The audit holds the last hundred reports, in order, however many are appended.
pub append_all_audit :
    (rs : List IncidentAnalysisReport) → append_all rs [] ≡ last_of audit_capacity rs
append_all_audit rs = append_all-last_of rs []
