-- ===== src/SecurityAudit/Score.antt =====
-- The scores of internal/securityaudit/score.go. The penalties are multiples of 1/4, which float64
-- adds exactly below 2^53: they are counted in quarters. Coverage factors are fractions of any
-- denominator: their arithmetic is that of the parameter `FloatOps`.
pub mod Caps
pub mod Penalty
pub mod Coverage
use aura_tracker_gcp.Prelude.{
  ℕ, suc, ◌+◌, ◌-◌, ◌*◌, ◌/◌, ◌≤◌, ◌<◌, min, String, Bool, ◌||◌, Option, none, some, List, [], ◌∷◌,
  ◌++◌, ◌==◌, string_eq, nat_eq, ltb, if◌then◌else◌, length, select,
}
use aura_tracker_gcp.GoMap.{GoMap, lookup, insert}
use aura_tracker_gcp.Float.{FloatOps}
use aura_tracker_gcp.SecurityAudit.Report.{
  SecurityFinding, SecurityCoverageCheck, SecurityCategoryScore,
}

unfoldable pub ordered_categories : List String
ordered_categories =
    "iam" ∷ "service_accounts" ∷ "public_services" ∷ "firewall" ∷ "secret_manager"
    ∷ "workload_identity" ∷ []

-- categoryWeights[category]
unfoldable pub category_weight : String → ℕ
category_weight category =
    if category == "iam"
    then 25
    else if category == "service_accounts"
    then 20
    else if category == "public_services"
    then 20
    else if category == "firewall"
    then 15
    else if category == "secret_manager"
    then 10
    else if category == "workload_identity"
    then 10
    else 0

unfoldable pub severity_penalty : String → ℕ
severity_penalty severity =
    if severity == "critical"
    then 40
    else if severity == "high"
    then 20
    else if severity == "medium"
    then 8
    else 3

abbrev or_zero : Option ℕ → ℕ
or_zero none = 0
or_zero (some n) = n

-- m[k] of a map from texts to counts
abbrev pub count_of : String → GoMap String ℕ → ℕ
count_of k m = or_zero (lookup k m)

-- Four times the multiplier of the n-th further finding of one rule.
unfoldable pub multiplier_quarters : ℕ → ℕ
multiplier_quarters count = if count == 1 then 2 else if ltb count 2 then 4 else 1

-- Four times the penalty of the findings of one category; `seen` is `seenRule`.
unfoldable pub penalty_quarters : GoMap String ℕ → List SecurityFinding → ℕ
unfolding severity_penalty multiplier_quarters
penalty_quarters seen [] = 0
penalty_quarters seen (f ∷ rest) =
    let count = count_of f.rule_id seen in
    severity_penalty f.severity * multiplier_quarters count
    + penalty_quarters (insert f.rule_id (count + 1) seen) rest

-- 100 - int(math.Round(math.Min(100, penalty)))
unfoldable pub score_of_quarters : ℕ → ℕ
score_of_quarters quarters = 100 - (min 400 quarters + 2) / 4

unfoldable pub in_category : String → List SecurityFinding → List SecurityFinding
in_category category = select (λ f. f.category == category)

unfoldable pub category_score : List SecurityFinding → ℕ
category_score findings = score_of_quarters (penalty_quarters [] findings)

-- The switch on the severity in the last loop.
unfoldable pub severity_cap : String → Option ℕ
severity_cap severity =
    if severity == "critical"
    then some 49
    else if severity == "high"
    then some 79
    else if severity == "medium"
    then some 89
    else if severity == "low"
    then some 99
    else none

abbrev pub cap_by : Option ℕ → ℕ → ℕ
cap_by none overall = overall
cap_by (some cap) overall = if ltb cap overall then cap else overall

unfoldable pub cap_overall : ℕ → List SecurityFinding → ℕ
unfolding severity_cap
cap_overall overall [] = overall
cap_overall overall (f ∷ rest) = cap_overall (cap_by (severity_cap f.severity) overall) rest

abbrev pub no_check : SecurityCoverageCheck
no_check = record {
  category = "";
  status = "";
  weight = 0;
  items_scanned = 0;
  message = "";
  completed_units = 0;
  total_units = 0;
  units = [];
}

abbrev or_no_check : Option SecurityCoverageCheck → SecurityCoverageCheck
or_no_check none = no_check
or_no_check (some check) = check

unfoldable pub checks_by_category :
    GoMap String SecurityCoverageCheck
    → List SecurityCoverageCheck
    → GoMap String SecurityCoverageCheck
checks_by_category m [] = m
checks_by_category m (check ∷ rest) = checks_by_category (insert check.category check m) rest

module _ {F : Type 0} (o : FloatOps F) where
  open o use {of_int, add, mul, div, is_zero, round}

  unfoldable pub coverage_factor : SecurityCoverageCheck → F
  coverage_factor check =
      if check.status == "complete"
      then of_int 1
      else if check.status == "partial"
      then (if ltb 0 check.total_units
          then div (of_int check.completed_units) (of_int check.total_units)
          else div (of_int 3) (of_int 4))
      else of_int 0

  -- The loop of coveragePercent over `covered` and `total`.
  unfoldable pub add_coverage : F → ℕ → List SecurityCoverageCheck → F × ℕ
  add_coverage covered total [] = (covered, total)
  add_coverage covered total (check ∷ rest) =
      add_coverage (add covered (mul (of_int check.weight) (coverage_factor check)))
        (total + check.weight) rest

  unfoldable pub coverage_percent : List SecurityCoverageCheck → ℕ
  unfolding add_coverage
  coverage_percent checks =
      let (covered, total) = add_coverage (of_int 0) 0 checks in
      if total == 0 then 0 else round (div (mul covered (of_int 100)) (of_int total))

  -- The loop over the categories: the scores, `weighted` and `effectiveWeight`.
  unfoldable pub score_categories :
      List SecurityFinding
      → GoMap String SecurityCoverageCheck
      → F
      → F
      → List String
      → List SecurityCategoryScore × F × F
  score_categories findings checks weighted effective [] = ([], weighted, effective)
  score_categories findings checks weighted effective (category ∷ rest) =
      let own = in_category category findings in
      let score = category_score own in
      let check = or_no_check (lookup category checks) in
      let weight = mul (of_int (category_weight category)) (coverage_factor check) in
      let (scores, weighted', effective') =
        score_categories findings checks (add weighted (mul (of_int score) weight))
          (add effective weight) rest in
      let line : SecurityCategoryScore = record {
        category = category;
        weight = category_weight category;
        score = score;
        findings = length own;
        coverage_status = check.status;
      } in
      (line ∷ scores, weighted', effective')

  unfoldable pub calculate_score :
      List SecurityFinding
      → List SecurityCoverageCheck
      → ℕ
      → Bool
      → List SecurityCategoryScore × Option ℕ
  calculate_score findings checks coverage iam_missing =
      let (scores, weighted, effective) =
        score_categories findings (checks_by_category [] checks) (of_int 0) (of_int 0)
          ordered_categories in
      (
        scores,
        if ltb coverage 60 || iam_missing || is_zero effective
            then none
            else some (cap_overall (round (div weighted effective)) findings),
      )
