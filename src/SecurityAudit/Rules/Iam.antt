-- ===== src/SecurityAudit/Rules/Iam.antt =====
-- `evaluateIAM` of internal/securityaudit/rules.go.
pub mod Public
use Prim.Native.String.{String, ◌++◌ as append}
use aura_tracker_gcp.Prelude.{
  ℕ, zero, suc, ◌+◌, ◌-◌, ◌/◌, ◌<◌, Bool, true, false, not, ◌&&◌, ◌||◌, Option, none, some, List,
  [], ◌∷◌, ◌++◌, ◌==◌, string_eq, nat_eq, if◌then◌else◌, ltb, leb, length, flat_map,
}
use aura_tracker_gcp.GoMap.{GoMap, lookup, insert}
use aura_tracker_gcp.GoText.{
  has_prefix, has_suffix, contains_text, trim_prefix, cut, join, atoi, le_ℤ,
}
use aura_tracker_gcp.GoSort.{slice_stable, sort_strings}
use aura_tracker_gcp.Message.{ℤ, pos, negsuc, sub_ℕ, Message, text, decimal, plain}
use aura_tracker_gcp.SecurityAudit.Facts.{
  SecurityIamCondition, SecurityIamBindingFact, SecurityIamPolicyFact, SecurityIamPolicyFacts,
  ServiceAccountKeyFact, ServiceAccountSecurityFact, ServiceAccountSecurityFacts,
  SecretVersionSecurityFact, SecretSecurityFact, SecretSecurityFacts, SecurityCoverageUnit,
}
use aura_tracker_gcp.SecurityAudit.NetworkFacts.{
  PublicServiceSecurityFact, PublicServiceSecurityFacts, FirewallProtocolFact, FirewallSecurityFact,
  FirewallSecurityFacts, NodePoolIdentityFact, KubernetesServiceAccountFact,
  WorkloadIdentitySecurityFact, WorkloadIdentitySecurityFacts, SecurityRecommendationFact,
  SecurityRecommendationFacts,
}
use aura_tracker_gcp.SecurityAudit.Report.{SecurityFinding}
use aura_tracker_gcp.SecurityAudit.Rules.Finding.{RuleOps, new_finding, compact_evidence, empty_as}
use aura_tracker_gcp.SecurityAudit.Rules.Roles.{
  is_public_member, is_public_invocation_role, is_secret_access_role, is_privileged_role,
  is_google_managed_service_agent, is_default_service_account, is_project_resource, contains,
  append_unique_roles, public_roles_for_resource, roles_by_member, roles_of,
  member_has_privileged_role, privileged_roles, matching_deny_rule_count,
}

abbrev pub iam_001 : RuleOps → String → String → List Message → SecurityFinding
iam_001 ops severity resource evidence =
    new_finding ops "IAM-001" severity "iam" "Public principal has an IAM role" resource
      "A public principal can exercise the granted permissions without membership in your organization."
      "Remove the public binding or replace it with the narrowest intended principal and role."
      "https://cloud.google.com/iam/docs/using-iam-securely" evidence

abbrev pub iam_002 : RuleOps → String → String → List Message → SecurityFinding
iam_002 ops title resource evidence =
    new_finding ops "IAM-002" "high" "iam" title resource
      "Primitive roles contain broad permissions and make least-privilege review difficult."
      "Replace the primitive role with task-specific predefined or custom roles."
      "https://cloud.google.com/iam/docs/using-iam-securely" evidence

abbrev pub iam_003 : RuleOps → String → List Message → SecurityFinding
iam_003 ops resource evidence =
    new_finding ops "IAM-003" "high" "iam" "Service-account impersonation granted project-wide"
      resource "The principal might impersonate or attach multiple service accounts in the project."
      "Grant impersonation only on the individual service accounts that require it."
      "https://cloud.google.com/iam/docs/using-iam-securely" evidence

abbrev pub iam_004 : RuleOps → String → List Message → SecurityFinding
iam_004 ops resource evidence =
    new_finding ops "IAM-004" "low" "iam" "Deleted principal remains in IAM policy" resource
      "Stale bindings obscure access reviews and might be restored if the principal is recovered."
      "Confirm the principal is no longer needed and remove the stale binding."
      "https://cloud.google.com/iam/docs/using-iam-securely" evidence

unfoldable pub condition_note : Option SecurityIamCondition → Message
condition_note none = plain "unconditional binding"
condition_note (some condition) = plain (append "conditional binding: " condition.title)

abbrev pub origin_note : SecurityIamPolicyFact → Message
origin_note policy =
    if policy.inherited
    then plain (append "inherited from " policy.origin_scope)
    else plain "direct binding"

abbrev pub deny_note : ℕ → Message
deny_note count =
    if ltb 0 count
    then decimal (pos count)
      ∷ text " inherited or direct deny rule(s) may constrain this allow grant"
      ∷ []
    else []

abbrev pub holds : String → SecurityIamBindingFact → Message
holds member binding = text member ∷ text " has " ∷ text binding.role ∷ []

abbrev pub when : Bool → SecurityFinding → List SecurityFinding
when test finding = if test then finding ∷ [] else []

-- The body of the innermost loop.
unfoldable pub member_findings :
    RuleOps
    → SecurityIamPolicyFacts
    → SecurityIamPolicyFact
    → SecurityIamBindingFact
    → String
    → List SecurityFinding
unfolding condition_note
member_findings ops facts policy binding member =
    let evidence = compact_evidence (
      holds member binding
      ∷ condition_note binding.condition
      ∷ origin_note policy
      ∷ deny_note (matching_deny_rule_count facts.deny_rules member)
      ∷ []) in
    if is_public_member member
    then (if is_public_invocation_role binding.role || is_secret_access_role binding.role
        then []
        else iam_001 ops (if is_privileged_role binding.role then "critical" else "high")
            policy.resource evidence
          ∷ [])
    else when
        ((binding.role == "roles/owner" || binding.role == "roles/editor")
          && not (is_google_managed_service_agent member))
        (iam_002 ops
          (if is_default_service_account member
            then "Default service account has a primitive role"
            else "Primitive Owner or Editor role granted")
          policy.resource evidence)
      ++ when
          (is_project_resource policy.resource
            && (binding.role == "roles/iam.serviceAccountTokenCreator"
                || binding.role == "roles/iam.serviceAccountUser"))
          (iam_003 ops policy.resource evidence)
      ++ when (has_prefix member "deleted:") (
          iam_004 ops policy.resource
            ((text member ∷ text " retains " ∷ text binding.role ∷ []) ∷ []))

unfoldable pub evaluate_iam : RuleOps → SecurityIamPolicyFacts → List SecurityFinding
evaluate_iam ops facts =
    flat_map
      (λ policy.
        flat_map (λ binding. flat_map (member_findings ops facts policy binding) binding.members)
          policy.bindings)
      facts.policies
