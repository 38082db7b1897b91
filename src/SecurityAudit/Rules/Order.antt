-- ===== src/SecurityAudit/Rules/Order.antt =====
-- `deduplicateAndSort` of internal/securityaudit/rules.go.
pub mod Kept
use Prim.Native.String.{String}
use aura_tracker_gcp.Prelude.{
  ℕ, Bool, true, false, not, List, [], ◌∷◌, ◌==◌, string_eq, nat_eq, if◌then◌else◌, ltb,
}
use aura_tracker_gcp.GoSort.{slice_stable, string_lt}
use aura_tracker_gcp.SecurityAudit.Report.{SecurityFinding}
use aura_tracker_gcp.SecurityAudit.Rules.Roles.{contains}

unfoldable pub severity_rank : String → ℕ
severity_rank severity =
    if severity == "critical"
    then 0
    else if severity == "high"
    then 1
    else if severity == "medium"
    then 2
    else 3

unfoldable pub finding_less : SecurityFinding → SecurityFinding → Bool
unfolding severity_rank
finding_less a b =
    let left = severity_rank a.severity in
    let right = severity_rank b.severity in
    if not (left == right)
    then ltb left right
    else if not (a.category == b.category)
    then string_lt a.category b.category
    else if not (a.rule_id == b.rule_id)
    then string_lt a.rule_id b.rule_id
    else string_lt a.resource b.resource

-- The loop; the map `seen` is the list of the ids that it holds.
unfoldable pub first_of_each_id : List String → List SecurityFinding → List SecurityFinding
first_of_each_id seen [] = []
first_of_each_id seen (finding ∷ rest) = elim (contains seen finding.id) [
  | true ↦ first_of_each_id seen rest
  | false ↦ finding ∷ first_of_each_id (finding.id ∷ seen) rest
]

unfoldable pub deduplicate_and_sort : List SecurityFinding → List SecurityFinding
unfolding first_of_each_id
deduplicate_and_sort findings = slice_stable finding_less (first_of_each_id [] findings)
