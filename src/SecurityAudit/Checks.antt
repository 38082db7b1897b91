-- ===== src/SecurityAudit/Checks.antt =====
-- `collectedFacts` of internal/securityaudit/engine.go and `buildCoverage` of
-- internal/securityaudit/score.go. An error is its text and, where `errors.As` finds one inside,
-- the quota error of Cloud Recommender; the zero time is `none`. The formatting of a time by
-- RFC 3339 is a parameter.
pub mod Status
use Prim.Native.String.{◌++◌ as append}
use aura_tracker_gcp.Prelude.{
  ℕ, suc, ◌<◌, String, Bool, true, false, ◌&&◌, Option, none, some, List, [], ◌∷◌, ◌++◌, ◌==◌,
  string_eq, ltb, if◌then◌else◌, length, map, ◌≡◌, arith,
}
use aura_tracker_gcp.GoMap.{GoMap, lookup}
use aura_tracker_gcp.SecurityAudit.Facts.{
  SecurityCoverageUnit, SecurityIamPolicyFacts, ServiceAccountSecurityFacts, SecretSecurityFacts,
}
use aura_tracker_gcp.SecurityAudit.NetworkFacts.{
  PublicServiceSecurityFacts, FirewallSecurityFacts, WorkloadIdentitySecurityFacts,
  SecurityRecommendationFacts,
}
use aura_tracker_gcp.SecurityAudit.Report.{SecurityCoverageCheck}
use aura_tracker_gcp.SecurityAudit.Score.{ordered_categories, category_weight}

-- ports.RecommenderQuotaExhaustedError
pub record QuotaError : Type 0 where
  pub op : String
  pub recommender_id : String
  pub retry_at : Option ℕ
  pub window : String

pub record CollectorError : Type 0 where
  pub message : String
  pub quota : Option QuotaError

pub record CollectedFacts : Type 0 where
  pub iam : SecurityIamPolicyFacts
  pub service_accounts : ServiceAccountSecurityFacts
  pub secrets : SecretSecurityFacts
  pub public_services : PublicServiceSecurityFacts
  pub firewalls : FirewallSecurityFacts
  pub workload_identity : WorkloadIdentitySecurityFacts
  pub recommendations : SecurityRecommendationFacts
  pub errors : GoMap String CollectorError
  pub recommendation_err : Option CollectorError

unfoldable pub recommender_quota_error : Option CollectorError → Option QuotaError
recommender_quota_error none = none
recommender_quota_error (some err) = err.quota

-- The maps `items`, `units` and `warnings`, read at a category.
unfoldable pub items_of : CollectedFacts → String → ℕ
items_of facts category =
    if category == "iam"
    then length facts.iam.policies
    else if category == "service_accounts"
    then length facts.service_accounts.service_accounts
    else if category == "secret_manager"
    then length facts.secrets.secrets
    else if category == "public_services"
    then length facts.public_services.services
    else if category == "firewall"
    then length facts.firewalls.firewalls
    else if category == "workload_identity"
    then length facts.workload_identity.clusters
    else 0

abbrev truncated_unit : SecurityIamPolicyFacts → SecurityCoverageUnit
truncated_unit iam = record {
  collector = "cloud_asset_iam";
  scope_type = "project";
  scope = iam.hierarchy.project_id;
  status = "truncated";
  items_scanned = length iam.policies;
  message = "Cloud Asset IAM policy search reached the 10,000-policy safety cap";
}

unfoldable pub units_of : CollectedFacts → String → List SecurityCoverageUnit
units_of facts category =
    if category == "iam"
    then (if facts.iam.truncated
        then facts.iam.coverage ++ truncated_unit facts.iam ∷ []
        else facts.iam.coverage)
    else if category == "public_services"
    then facts.public_services.coverage
    else if category == "firewall"
    then facts.firewalls.coverage
    else if category == "workload_identity"
    then facts.workload_identity.coverage
    else []

unfoldable pub warnings_of : CollectedFacts → String → List String
warnings_of facts category =
    if category == "secret_manager"
    then facts.secrets.warnings
    else if category == "public_services"
    then facts.public_services.warnings
    else if category == "workload_identity"
    then facts.workload_identity.warnings
    else []

unfoldable pub first_coverage_message : SecurityCoverageUnit → String
first_coverage_message unit =
    if unit.message == ""
    then append unit.collector (append " for " (append unit.scope (append " is " unit.status)))
    else append unit.collector (append " for " (append unit.scope (append ": " unit.message)))

-- The two loops over `check.Units`.
unfoldable pub count_complete : List SecurityCoverageUnit → ℕ
count_complete [] = 0
count_complete (unit ∷ rest) =
    let more = count_complete rest in if unit.status == "complete" then suc more else more

unfoldable pub first_incomplete : List SecurityCoverageUnit → String
first_incomplete [] = ""
first_incomplete (unit ∷ rest) =
    if unit.status == "complete" then first_incomplete rest else first_coverage_message unit

-- The status and the message of a check.
unfoldable pub check_status :
    Option CollectorError → List SecurityCoverageUnit → List String → String × String
unfolding count_complete
check_status (some err) units warnings = ("error", err.message)
check_status none units [] =
    if ltb 0 (length units) && ltb (count_complete units) (length units)
    then ("partial", first_incomplete units)
    else ("complete", "")
check_status none units (warning ∷ warnings) =
    if ltb 0 (length units) && ltb (count_complete units) (length units)
    then ("partial", first_incomplete units)
    else ("partial", warning)

unfoldable pub category_check : CollectedFacts → String → SecurityCoverageCheck
category_check facts category =
    let units = units_of facts category in
    let (status, message) =
      check_status (lookup category facts.errors) units (warnings_of facts category) in
    record {
      category = category;
      status = status;
      weight = category_weight category;
      items_scanned = items_of facts category;
      message = message;
      completed_units = count_complete units;
      total_units = length units;
      units = units;
    }

module _ (rfc3339 : ℕ → String) where
  abbrev with_window : QuotaError → String → String
  with_window quota message =
      if quota.window == ""
      then message
      else append message (append " (" (append quota.window " window)"))

  abbrev with_retry : Option ℕ → String → String
  with_retry none message = message
  with_retry (some at) message = append message (append "; retry after " (rfc3339 at))

  recommendation_status : Option CollectorError → Bool → String × String
  recommendation_status none true = ("complete", "")
  recommendation_status none false = ("skipped", "Cloud Recommender integration is disabled")
  recommendation_status (some err) enabled = elim err.quota [
    | none ↦ ("error", err.message)
    | some quota ↦ (
      "partial",
      with_retry quota.retry_at (with_window quota "Cloud Recommender quota exhausted"),
    )
  ]

  unfoldable pub recommendation_check : CollectedFacts → SecurityCoverageCheck
  unfolding recommendation_status
  recommendation_check facts =
      let (status, message) =
        recommendation_status facts.recommendation_err facts.recommendations.enabled in
      record {
        category = "recommendations";
        status = status;
        weight = 0;
        items_scanned = length facts.recommendations.recommendations;
        message = message;
        completed_units = 0;
        total_units = 0;
        units = [];
      }

  unfoldable pub build_coverage : CollectedFacts → List SecurityCoverageCheck
  build_coverage facts =
      map (category_check facts) ordered_categories ++ recommendation_check facts ∷ []
