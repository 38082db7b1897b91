-- ===== src/SecurityAudit/Score/Caps.antt =====
-- The overall score under the findings' severities.
use aura_tracker_gcp.Prelude.{
  ℕ, ◌≤◌, Bool, Option, none, some, List, [], ◌∷◌, ◌≡◌, ◌∙◌, subst, refl, ◌⊎◌, inl, inr, arith, All,
}
use aura_tracker_gcp.Float.{FloatOps}
use aura_tracker_gcp.SecurityAudit.Report.{SecurityFinding, SecurityCoverageCheck}
use aura_tracker_gcp.SecurityAudit.Score.{
  severity_cap, cap_by, cap_overall, score_categories, checks_by_category, ordered_categories,
  calculate_score,
}

-- The number does not pass the cap, where there is one.
abbrev pub Within : Option ℕ → ℕ → Type 0
Within none n = Unit
Within (some cap) n = n ≤ cap

-- Some finding's severity caps the score at the number.
abbrev pub CappedBy : List SecurityFinding → ℕ → Type 0
CappedBy [] n = ⊥
CappedBy (f ∷ rest) n = (severity_cap f.severity ≡ some n) ⊎ CappedBy rest n

-- The weighted mean of the category scores, rounded.
pub raw_score : {F : Type 0} → FloatOps F → List SecurityFinding → List SecurityCoverageCheck → ℕ
raw_score o findings checks =
    let (_, weighted, effective) =
      score_categories o findings (checks_by_category [] checks) (o.of_int 0) (o.of_int 0)
        ordered_categories in
    o.round (o.div weighted effective)

cap_overall-le : (n : ℕ) (fs : List SecurityFinding) → cap_overall n fs ≤ n
unfolding cap_overall
cap_overall-le n [] = omega arith
cap_overall-le n (f ∷ rest) =
    ground (arith, cap_overall-le (cap_by (severity_cap f.severity) n) rest)

cap_by-Within : (c : Option ℕ) (n m : ℕ) → m ≤ cap_by c n → Within c m
cap_by-Within none n m h = tt
cap_by-Within (some c) n m h = ground arith

cap_overall-Within :
    (n : ℕ) (fs : List SecurityFinding)
    → All (λ f. Within (severity_cap f.severity) (cap_overall n fs)) fs
unfolding cap_overall
cap_overall-Within n [] = tt
cap_overall-Within n (f ∷ rest) =
    let n' = cap_by (severity_cap f.severity) n in
    (
      cap_by-Within (severity_cap f.severity) n (cap_overall n' rest) (cap_overall-le n' rest),
      cap_overall-Within n' rest,
    )

cap_by_cases : (c : Option ℕ) (n : ℕ) → (cap_by c n ≡ n) ⊎ (c ≡ some (cap_by c n))
cap_by_cases none n = inl refl
cap_by_cases (some c) n = ground arith

cap_overall_reached :
    (n : ℕ) (fs : List SecurityFinding) → (cap_overall n fs ≡ n) ⊎ CappedBy fs (cap_overall n fs)
unfolding cap_overall
cap_overall_reached n [] = inl refl
cap_overall_reached n (f ∷ rest) =
    let n' = cap_by (severity_cap f.severity) n in
    elim (cap_overall_reached n' rest) [
      | inr capped ↦ inr (inr capped)
      | inl same ↦ elim (cap_by_cases (severity_cap f.severity) n) [
        | inl kept ↦ inl (same ∙ kept)
        | inr capped ↦ inr (inl (rw same capped))
      ]
    ]

-- A score that is given is the least of the rounded weighted mean and the caps of the findings'
-- severities: it passes none of them, and is one of them.
pub score_capped :
    {F : Type 0} (o : FloatOps F) (findings : List SecurityFinding)
    (checks : List SecurityCoverageCheck) (coverage : ℕ) (iam_missing : Bool) (n : ℕ)
    → (calculate_score o findings checks coverage iam_missing).1 ≡ some n
    → (n ≤ raw_score o findings checks)
      × All (λ f. Within (severity_cap f.severity) n) findings
      × ((n ≡ raw_score o findings checks) ⊎ CappedBy findings n)
unfolding calculate_score raw_score
score_capped o findings checks coverage iam_missing n h =
    let raw = raw_score o findings checks in
    let e : cap_overall raw findings ≡ n = ground arith in
    subst
      (λ m.
        (m ≤ raw)
        × All (λ f. Within (severity_cap f.severity) m) findings
        × ((m ≡ raw) ⊎ CappedBy findings m))
      e
      (
        cap_overall-le raw findings,
        cap_overall-Within raw findings,
        cap_overall_reached raw findings,
      )
