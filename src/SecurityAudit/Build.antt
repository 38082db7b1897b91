-- ===== src/SecurityAudit/Build.antt =====
-- `buildReport` and `buildRecommendations` of internal/securityaudit/score.go. The loop over the map
-- of groups takes an order that Go leaves open, a parameter; with any order of it, the stable sort
-- gives each result that the unstable one of Go can. The texts of a time and of a report, and
-- SHA-256, are parameters too.
mod Tests
pub mod Groups
pub mod Recommended
pub mod Listed
pub mod Counted
use Prim.Native.String.{String, ◌++◌ as append}
use aura_tracker_gcp.Prelude.{
  ℕ, ◌+◌, Bool, true, false, not, Option, none, some, List, [], ◌∷◌, ◌++◌, ◌==◌, string_eq, nat_eq,
  if◌then◌else◌, ltb, leb, length, take, map,
}
use aura_tracker_gcp.GoMap.Range.{Range}
use aura_tracker_gcp.GoMap.{GoMap, lookup, insert}
use aura_tracker_gcp.GoSort.{slice_stable, sort_strings, string_lt}
use aura_tracker_gcp.Float.{FloatOps}
use aura_tracker_gcp.SecurityAudit.Report.{
  SecurityFinding, SecurityRecommendation, SecuritySuppressedFinding, SecuritySeverityCounts,
  SecurityAuditReport,
}
use aura_tracker_gcp.SecurityAudit.Score.{coverage_percent, calculate_score}
use aura_tracker_gcp.SecurityAudit.Checks.{CollectedFacts, CollectorError, build_coverage}
use aura_tracker_gcp.SecurityAudit.Rules.Order.{severity_rank}

-- The counters of a report.
unfoldable pub count_severity : SecurityFinding → SecuritySeverityCounts → SecuritySeverityCounts
count_severity finding counts =
    if finding.severity == "critical"
    then record counts { critical = counts.critical + 1 }
    else if finding.severity == "high"
    then record counts { high = counts.high + 1 }
    else if finding.severity == "medium"
    then record counts { medium = counts.medium + 1 }
    else if finding.severity == "low"
    then record counts { low = counts.low + 1 }
    else counts

unfoldable pub count_severities :
    List SecurityFinding → SecuritySeverityCounts → SecuritySeverityCounts
unfolding count_severity
count_severities [] counts = counts
count_severities (finding ∷ rest) counts = count_severities rest (count_severity finding counts)

-- The local type `group`.
pub record Group : Type 0 where
  pub severity : String
  pub title : String
  pub action : String
  pub ids : List String

-- groups[finding.RuleID], or the new one
unfoldable pub group_of : SecurityFinding → Option Group → Group
group_of finding (some value) = value
group_of finding none = record {
  severity = finding.severity;
  title = finding.title;
  action = finding.recommendation;
  ids = [];
}

unfoldable pub join_group : SecurityFinding → Group → Group
join_group finding value = record value {
  severity =
      if ltb (severity_rank finding.severity) (severity_rank value.severity)
      then finding.severity
      else value.severity;
  ids = value.ids ++ finding.id ∷ [];
}

unfoldable pub group_findings : List SecurityFinding → GoMap String Group → GoMap String Group
unfolding group_of join_group
group_findings [] groups = groups
group_findings (finding ∷ rest) groups = group_findings rest (
    insert finding.rule_id (join_group finding (group_of finding (lookup finding.rule_id groups)))
      groups)

unfoldable pub recommendation_of : Group → SecurityRecommendation
recommendation_of value = record {
  priority = 0;
  severity = value.severity;
  title = value.title;
  action = value.action;
  affected_count = length value.ids;
  finding_ids = sort_strings value.ids;
}

unfoldable pub recommendation_less : SecurityRecommendation → SecurityRecommendation → Bool
recommendation_less a b =
    let left = severity_rank a.severity in
    let right = severity_rank b.severity in
    if not (left == right)
    then ltb left right
    else if not (a.affected_count == b.affected_count)
    then ltb b.affected_count a.affected_count
    else string_lt a.title b.title

unfoldable pub number_from : ℕ → List SecurityRecommendation → List SecurityRecommendation
number_from n [] = []
number_from n (first ∷ rest) = record first { priority = n } ∷ number_from (n + 1) rest

abbrev pub recommendations_of : List (String × Group) → List SecurityRecommendation
recommendations_of [] = []
recommendations_of ((rule, value) ∷ rest) = recommendation_of value ∷ recommendations_of rest

abbrev pub RangeGroups : Type 0
RangeGroups = Range Group

unfoldable pub build_recommendations :
    RangeGroups → List SecurityFinding → List SecurityRecommendation
unfolding number_from
build_recommendations range_groups findings = number_from 1 (
    take 10 (
      slice_stable recommendation_less
        (recommendations_of (range_groups.entries (group_findings findings [])))))

abbrev pub failed : Option CollectorError → Bool
failed none = false
failed (some err) = true

unfoldable pub score_status : Option ℕ → ℕ → String
score_status none coverage = "unavailable"
score_status (some score) coverage = if leb 90 coverage then "final" else "provisional"

-- What a report takes from outside: hex(sha256(…)[:6]) of a project, a time and a version, the text
-- of a time under RFC 3339, and the text of the report.
pub record ReportOps : Type 0 where
  pub audit_digest : String → String → String → String
  pub rfc3339 : ℕ → String
  pub render_markdown : SecurityAuditReport → String

abbrev pub cut_when : Bool → SecurityAuditReport → SecurityAuditReport
cut_when long report =
    if long then record report { findings = take 200 report.findings; truncated = true } else report

unfoldable pub cut_findings : SecurityAuditReport → SecurityAuditReport
cut_findings report = cut_when (ltb 200 (length report.findings)) report

module _ {F : Type 0} (float : FloatOps F) (ops : ReportOps) (range_groups : RangeGroups) where
  unfoldable pub audit_id : String → ℕ → String
  audit_id project now =
      append "sec-" (ops.audit_digest project (ops.rfc3339 now) "security-posture-v2")

  -- The report before its list of findings is cut.
  unfoldable pub whole_report :
      String
      → ℕ
      → List SecurityFinding
      → List SecuritySuppressedFinding
      → CollectedFacts
      → SecurityAuditReport
  unfolding audit_id
  whole_report project_id now findings suppressed facts =
      let coverage = build_coverage ops.rfc3339 facts in
      let percent = coverage_percent float coverage in
      let (scores, score) =
        calculate_score float findings coverage percent (failed (lookup "iam" facts.errors)) in
      record {
        audit_id = audit_id project_id now;
        project_id = project_id;
        generated_at = ops.rfc3339 now;
        rule_version = "security-posture-v2";
        score = score;
        score_status = score_status score percent;
        coverage_percent = percent;
        counts = count_severities findings (record { critical = 0; high = 0; medium = 0; low = 0 });
        category_scores = scores;
        findings = findings;
        recommendations = build_recommendations range_groups findings;
        suppressed = suppressed;
        coverage = coverage;
        truncated = false;
        summary_markdown = "";
      }

  unfoldable pub build_report :
      String
      → ℕ
      → List SecurityFinding
      → List SecuritySuppressedFinding
      → CollectedFacts
      → SecurityAuditReport
  unfolding whole_report cut_findings
  build_report project_id now findings suppressed facts =
      let report = cut_findings (whole_report project_id now findings suppressed facts) in
      record report { summary_markdown = ops.render_markdown report }
