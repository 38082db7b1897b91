-- ===== src/SecurityAudit/Rules.antt =====
-- `evaluateRules` of internal/securityaudit/rules.go: the findings of an audit.
pub mod Tests
pub mod Roles
pub mod Finding
pub mod Iam
pub mod Accounts
pub mod Services
pub mod Workloads
pub mod Ports
pub mod Firewalls
pub mod Order
pub mod Category
pub mod Origin
use Prim.Native.String.{String}
use aura_tracker_gcp.Prelude.{
  ℕ, Bool, true, false, not, ◌&&◌, Option, none, some, List, [], ◌∷◌, ◌++◌, string_eq,
  if◌then◌else◌,
}
use aura_tracker_gcp.GoMap.{GoMap, lookup}
use aura_tracker_gcp.SecurityAudit.Report.{SecurityFinding}
use aura_tracker_gcp.SecurityAudit.Checks.{CollectedFacts, CollectorError}
use Finding.{RuleOps}
use Iam.{evaluate_iam}
use Accounts.{evaluate_service_accounts, evaluate_secrets}
use Services.{evaluate_public_services}
use Firewalls.{evaluate_firewalls}
use Workloads.{evaluate_workload_identity, evaluate_provider_recommendations}
use Order.{deduplicate_and_sort}

abbrev pub unless_failed : Option CollectorError → List SecurityFinding → List SecurityFinding
unless_failed none findings = findings
unless_failed (some err) findings = []

-- The findings before they are ordered.
unfoldable pub all_findings : RuleOps → CollectedFacts → ℕ → String → List SecurityFinding
all_findings ops facts now project_id =
    unless_failed (lookup "iam" facts.errors) (evaluate_iam ops facts.iam)
    ++ unless_failed (lookup "service_accounts" facts.errors)
        (evaluate_service_accounts ops facts.service_accounts facts.iam now)
    ++ unless_failed (lookup "secret_manager" facts.errors)
        (evaluate_secrets ops facts.secrets facts.iam now)
    ++ unless_failed (lookup "public_services" facts.errors)
        (evaluate_public_services ops facts.public_services facts.iam)
    ++ unless_failed (lookup "firewall" facts.errors) (evaluate_firewalls ops facts.firewalls)
    ++ unless_failed (lookup "workload_identity" facts.errors)
        (evaluate_workload_identity ops facts.workload_identity)
    ++ unless_failed facts.recommendation_err (
        if facts.recommendations.enabled
        then evaluate_provider_recommendations ops facts.recommendations project_id
        else [])

unfoldable pub evaluate_rules : RuleOps → CollectedFacts → ℕ → String → List SecurityFinding
unfolding all_findings
evaluate_rules ops facts now project_id =
    deduplicate_and_sort (all_findings ops facts now project_id)
