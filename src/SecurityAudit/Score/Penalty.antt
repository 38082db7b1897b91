-- ===== src/SecurityAudit/Score/Penalty.antt =====
-- The penalty of a category.
use aura_tracker_gcp.Prelude.{
  ℕ, zero, suc, ◌+◌, ◌*◌, ◌/◌, ◌-◌, ◌≤◌, min, String, List, [], ◌∷◌, ◌++◌, ◌≡◌, ap, ap₂, ◌∙◌, refl,
  arith, ◌==◌, nat_eq, string_eq, if◌then◌else◌,
}
use aura_tracker_gcp.GoMap.{GoMap, lookup, insert, lookup-insert}
use aura_tracker_gcp.SecurityAudit.Report.{SecurityFinding}
use aura_tracker_gcp.SecurityAudit.Score.{
  severity_penalty, multiplier_quarters, penalty_quarters, score_of_quarters, category_score,
  count_of,
}

penalty_quarters-append-le :
    (seen : GoMap String ℕ) (xs ys : List SecurityFinding)
    → penalty_quarters seen xs ≤ penalty_quarters seen (xs ++ ys)
unfolding penalty_quarters
penalty_quarters-append-le seen [] ys = omega arith
penalty_quarters-append-le seen (f ∷ xs) ys =
    let count = count_of f.rule_id seen in
    omega (arith, penalty_quarters-append-le (insert f.rule_id (count + 1) seen) xs ys)

-- Further findings never raise the score of a category, and no score passes 100.
pub category_score-append-le :
    (xs ys : List SecurityFinding)
    → (category_score (xs ++ ys) ≤ category_score xs) × (category_score xs ≤ 100)
unfolding category_score score_of_quarters
category_score-append-le xs ys =
    let grows = penalty_quarters-append-le [] xs ys in (omega (arith, grows), omega arith)

count_of-insert :
    (k j : String) (n : ℕ) (m : GoMap String ℕ)
    → count_of j (insert k n m) ≡ (if k == j then n else count_of j m)
count_of-insert k j n m = ground (arith, lookup-insert k j n m)

-- How many of the findings are of the rule.
pub of_rule : String → List SecurityFinding → ℕ
of_rule rule [] = 0
of_rule rule (f ∷ rest) = if f.rule_id == rule then suc (of_rule rule rest) else of_rule rule rest

-- In quarters: the first finding of a rule counts in full, the second by half, each later by a quarter.
abbrev pub share : ℕ → ℕ
share zero = 4
share (suc zero) = 2
share (suc (suc n)) = 1

multiplier-share : (n : ℕ) → multiplier_quarters n ≡ share n
unfolding multiplier_quarters
multiplier-share zero = refl
multiplier-share (suc zero) = refl
multiplier-share (suc (suc n)) = ground arith

-- The penalty without the map: each finding counts the earlier ones of its rule.
pub discounted : List SecurityFinding → List SecurityFinding → ℕ
discounted earlier [] = 0
discounted earlier (f ∷ rest) =
    severity_penalty f.severity * share (of_rule f.rule_id earlier) + discounted (f ∷ earlier) rest

penalty-discounted :
    (seen : GoMap String ℕ) (earlier fs : List SecurityFinding)
    → ((rule : String) → count_of rule seen ≡ of_rule rule earlier)
    → penalty_quarters seen fs ≡ discounted earlier fs
unfolding penalty_quarters discounted
penalty-discounted seen earlier [] h = refl
penalty-discounted seen earlier (f ∷ rest) h =
    let count = count_of f.rule_id seen in
    let seen' = insert f.rule_id (count + 1) seen in
    ap₂ (λ (s r : ℕ). severity_penalty f.severity * s + r)
      (ap multiplier_quarters (h f.rule_id) ∙ multiplier-share (of_rule f.rule_id earlier))
      (penalty-discounted seen' (f ∷ earlier) rest (one_more seen earlier f h))
  where
    one_more :
        (seen : GoMap String ℕ) (earlier : List SecurityFinding) (f : SecurityFinding)
        → ((rule : String) → count_of rule seen ≡ of_rule rule earlier)
        → (rule : String)
        → count_of rule (insert f.rule_id (count_of f.rule_id seen + 1) seen)
          ≡ of_rule rule (f ∷ earlier)
    one_more seen earlier f h rule =
        unfold of_rule in
        ground (
          arith,
          count_of-insert f.rule_id rule (count_of f.rule_id seen + 1) seen,
          h rule,
          h f.rule_id,
          string_eq.equals_iff f.rule_id rule,
        )

-- The score of a category is 100 less the rounded penalty, at most 100, in which the first finding of
-- a rule counts in full, the second by half and each later one by a quarter.
pub category_score-discounted :
    (fs : List SecurityFinding) → category_score fs ≡ 100 - (min 400 (discounted [] fs) + 2) / 4
unfolding category_score score_of_quarters lookup of_rule
category_score-discounted fs = rw (penalty-discounted [] [] fs (λ rule. refl))
