-- ===== src/SecurityAudit/Build/Counted.antt =====
-- The counters of a report and its list of findings.
use Prim.Native.String.{String}
use aura_tracker_gcp.Prelude.{
  zero, suc, ◌++◌, take, ℕ, ◌+◌, ◌≤◌, ◌<◌, min, Bool, true, false, ◌||◌, List, [], ◌∷◌, ◌≡◌, refl,
  ◌∙◌, subst, ap, arith, ◌==◌, string_eq, nat_eq, ltb, length, length-take, All, ◌↔◌,
}
use aura_tracker_gcp.Float.{FloatOps}
use aura_tracker_gcp.SecurityAudit.Report.{
  SecurityFinding, SecuritySuppressedFinding, SecuritySeverityCounts, SecurityAuditReport,
}
use aura_tracker_gcp.SecurityAudit.Checks.{CollectedFacts}
use aura_tracker_gcp.SecurityAudit.Build.{
  count_severity, count_severities, RangeGroups, ReportOps, cut_when, cut_findings, whole_report,
  build_report,
}

-- The severity is one of the four of the program.
abbrev pub HasSeverity : SecurityFinding → Type 0
HasSeverity finding =
    (finding.severity == "critical"
      || finding.severity == "high"
      || finding.severity == "medium"
      || finding.severity == "low")
    ≡ true

abbrev pub sum_of : SecuritySeverityCounts → ℕ
sum_of counts = counts.critical + counts.high + counts.medium + counts.low

count_severity-sum :
    (finding : SecurityFinding) (counts : SecuritySeverityCounts)
    → HasSeverity finding
    → sum_of (count_severity finding counts) ≡ sum_of counts + 1
unfolding count_severity
count_severity-sum finding counts h = ground arith

count_severities-sum :
    (findings : List SecurityFinding) (counts : SecuritySeverityCounts)
    → All HasSeverity findings
    → sum_of (count_severities findings counts) ≡ sum_of counts + length findings
unfolding count_severities
count_severities-sum [] counts h = omega arith
count_severities-sum (finding ∷ rest) counts h = omega (
  arith,
  count_severities-sum rest (count_severity finding counts) h.1,
  count_severity-sum finding counts h.0,
)

-- The list begins the other one: it has the first of its elements, at most so many, in order.
abbrev pub Begins : ℕ → List SecurityFinding → List SecurityFinding → Type 0
Begins n listed all =
    ((rest : List SecurityFinding) × (all ≡ listed ++ rest)) × (length listed ≡ min n (length all))

take-rest :
    (n : ℕ) (fs : List SecurityFinding) → (rest : List SecurityFinding) × (fs ≡ take n fs ++ rest)
take-rest zero fs = (fs, refl)
take-rest (suc n) [] = ([], refl)
take-rest (suc n) (f ∷ fs) = let (rest, same) = take-rest n fs in (rest, ap (λ xs. f ∷ xs) same)

append_nil : (fs : List SecurityFinding) → fs ≡ fs ++ []
append_nil [] = refl
append_nil (f ∷ fs) = ap (λ xs. f ∷ xs) (append_nil fs)

-- The findings are those before, up to 200, and the mark says if there were more.
abbrev IsCut : SecurityAuditReport → SecurityAuditReport → Type 0
IsCut before after =
    (after.counts ≡ before.counts)
    × Begins 200 after.findings before.findings
    × ((after.truncated ≡ true) ↔ (200 < length before.findings))

cut_when-IsCut :
    (report : SecurityAuditReport) (long : Bool) (size : ℕ)
    → size ≡ length report.findings
    → ltb 200 size ≡ long
    → report.truncated ≡ false
    → IsCut report (cut_when long report)
cut_when-IsCut report true size same h whole =
    let over : 200 < size = ground arith in
    (
      refl,
      (take-rest 200 report.findings, length-take 200 report.findings),
      ((λ k. subst (λ n. 200 < n) same over), (λ k. refl)),
    )
cut_when-IsCut report false size same h whole =
    let under : size ≤ 200 = ground arith in
    (
      refl,
      (([], append_nil report.findings), omega (arith, under, same)),
      (
        (λ k. ground arith),
        (λ k. let none_left : 200 < 200 = omega (arith, k, under, same) in ground arith),
      ),
    )

module _ {F : Type 0} (float : FloatOps F) (ops : ReportOps) (range_groups : RangeGroups) where
  -- Where every finding has one of the four severities, the counters of a report add up to the number
  -- of all active findings, even if the report lists fewer; it lists the first 200 of them in their
  -- order, all if there are no more, and is marked as truncated exactly if there are more.
  pub build_report-counts :
      (project_id : String) (now : ℕ) (findings : List SecurityFinding)
      (suppressed : List SecuritySuppressedFinding) (facts : CollectedFacts)
      → All HasSeverity findings
      → let report = build_report float ops range_groups project_id now findings suppressed facts in
        (sum_of report.counts ≡ length findings)
        × Begins 200 report.findings findings
        × ((report.truncated ≡ true) ↔ (200 < length findings))
  unfolding build_report whole_report cut_findings
  build_report-counts project_id now findings suppressed facts known =
      let none_yet : SecuritySeverityCounts = record {
        critical = 0;
        high = 0;
        medium = 0;
        low = 0;
      } in
      let added : sum_of (count_severities findings none_yet) ≡ length findings =
        omega (arith, count_severities-sum findings none_yet known) in
      let (counts, listed, cut) =
        cut_when-IsCut
          (whole_report float ops range_groups project_id now findings suppressed facts)
          (ltb 200 (length findings)) (length findings) refl refl refl in
      (ap sum_of counts ∙ added, listed, cut)
