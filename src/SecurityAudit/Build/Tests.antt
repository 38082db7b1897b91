-- ===== src/SecurityAudit/Build/Tests.antt =====
-- The report of an audit that finds one public bucket.
use aura_tracker_gcp.SecurityAudit.Rules.Order.{severity_rank}
use aura_tracker_gcp.GoSort.{sort_in, slice_stable}
use aura_tracker_gcp.SecurityAudit.Rules.Finding.{new_finding}
use aura_tracker_gcp.Prelude.{
  ◌≤◌, ◌<◌, true, List, [], ◌∷◌, ◌≡◌, refl, Member, ◌⊎◌, inl, ◌↔◌, length,
}
use aura_tracker_gcp.GoMap.{insert, lookup}
use aura_tracker_gcp.GoMap.Range.{as_listed}
use aura_tracker_gcp.SecurityAudit.Report.{SecurityFinding, SecurityRecommendation}
use aura_tracker_gcp.SecurityAudit.Tests.{whole, half_read}
use aura_tracker_gcp.SecurityAudit.Rules.Tests.{reported_bucket}
use aura_tracker_gcp.SecurityAudit.Build.{
  recommendation_of, ReportOps, group_findings, build_recommendations, build_report,
}
use aura_tracker_gcp.SecurityAudit.Build.Recommended.{Covers, build_recommendations-Covers}
use aura_tracker_gcp.SecurityAudit.Build.Listed.{build_recommendations-Names}
use aura_tracker_gcp.SecurityAudit.Build.Counted.{sum_of, Begins, build_report-counts}

abbrev pub no_text : ReportOps
no_text = record {
  audit_digest = λ project time version. "000000000000";
  rfc3339 = λ now. "";
  render_markdown = λ report. "";
}

abbrev found : List SecurityFinding
found = reported_bucket ∷ []

abbrev advice : SecurityRecommendation
advice = record {
  priority = 1;
  severity = "high";
  title = "Public principal has an IAM role";
  action =
      "Remove the public binding or replace it with the narrowest intended principal and role.";
  affected_count = 1;
  finding_ids = "IAM-001-000000" ∷ [];
}

advised : Member advice (build_recommendations as_listed found)
unfolding build_recommendations slice_stable group_findings insert sort_in recommendation_of
    severity_rank lookup new_finding
advised = inl refl

build_recommendations-Covers_example : Covers found advice × (1 ≤ 1) × (1 ≤ 10)
build_recommendations-Covers_example = build_recommendations-Covers as_listed found advice advised

build_report-counts_example :
    (sum_of (build_report whole no_text as_listed "p" 0 found [] half_read).counts ≡ 1)
    × (Begins 200 (build_report whole no_text as_listed "p" 0 found [] half_read).findings found)
    × (((build_report whole no_text as_listed "p" 0 found [] half_read).truncated ≡ true)
        ↔ (200 < 1))
unfolding new_finding
build_report-counts_example =
    build_report-counts whole no_text as_listed "p" 0 found [] half_read (refl, tt)

build_recommendations-Names_example :
    (length (build_recommendations as_listed found) ≡ 10)
    ⊎ ((recommendation : SecurityRecommendation) × Member recommendation
          (build_recommendations as_listed found)
        × Member reported_bucket.id recommendation.finding_ids)
build_recommendations-Names_example =
    build_recommendations-Names as_listed found reported_bucket (inl refl)
