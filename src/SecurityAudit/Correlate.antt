-- ===== src/SecurityAudit/Correlate.antt =====
-- internal/securityaudit/workload_identity.go: which roles the Kubernetes service accounts of a
-- project have. Go leaves the order in which a map is ranged over open; `range_over` is the order of
-- the loop over the map of roles for each service account, a parameter.
mod Tests
pub mod Grants
pub mod Roles
pub mod Gained
use Prim.Native.String.{String, ◌++◌ as append}
use aura_tracker_gcp.Prelude.{
  Bool, true, false, not, ◌&&◌, ◌||◌, Option, none, some, List, [], ◌∷◌, ◌==◌, string_eq,
  if◌then◌else◌, map,
}
use aura_tracker_gcp.GoMap.Range.{Range}
use aura_tracker_gcp.GoMap.{GoMap}
use aura_tracker_gcp.GoText.{has_prefix, has_suffix, contains_text}
use aura_tracker_gcp.GoSort.{sort_strings}
use aura_tracker_gcp.SecurityAudit.Facts.{
  SecurityIamBindingFact, SecurityIamPolicyFact, SecurityIamPolicyFacts,
}
use aura_tracker_gcp.SecurityAudit.NetworkFacts.{
  KubernetesServiceAccountFact, WorkloadIdentitySecurityFact, WorkloadIdentitySecurityFacts,
}
use aura_tracker_gcp.SecurityAudit.Rules.Roles.{
  contains, append_unique_roles, roles_by_member, roles_of,
}

abbrev pub RangeOver : Type 0
RangeOver = KubernetesServiceAccountFact → Range (List String)

unfoldable pub identity_member_uses_pool : String → String → Bool
identity_member_uses_pool member pool =
    not (pool == "") && contains_text member (append "/workloadIdentityPools/" (append pool "/"))

-- The first case of the switch: the principal is the service account itself.
unfoldable pub is_direct : String → KubernetesServiceAccountFact → String → Bool
unfolding identity_member_uses_pool
is_direct pool account member =
    identity_member_uses_pool member pool
    && has_prefix member "principal://"
    && has_suffix member
        (append "/subject/ns/" (append account.namespace (append "/sa/" account.name)))

-- The second case: the principals are those of the namespace.
unfoldable pub is_namespace : String → KubernetesServiceAccountFact → String → Bool
unfolding identity_member_uses_pool
is_namespace pool account member =
    identity_member_uses_pool member pool
    && has_prefix member "principalSet://"
    && (has_suffix member (append "/namespace/" account.namespace)
        || has_suffix member (append "/attribute.namespace/" account.namespace))

-- The loop over the members of the policies; `account` keeps its name and namespace.
unfoldable pub correlate_members :
    String
    → KubernetesServiceAccountFact
    → List (String × List String)
    → KubernetesServiceAccountFact
    → KubernetesServiceAccountFact
correlate_members pool named [] account = account
correlate_members pool named ((member, granted) ∷ rest) account =
    correlate_members pool named rest (
      if is_direct pool named member
      then record account { direct_roles = append_unique_roles account.direct_roles granted }
      else if is_namespace pool named member
      then record account { namespace_roles = append_unique_roles account.namespace_roles granted }
      else account)

abbrev any_binding : List SecurityIamBindingFact → String → Bool
any_binding [] member = false
any_binding (binding ∷ rest) member =
    if binding.role == "roles/iam.workloadIdentityUser" && contains binding.members member
    then true
    else any_binding rest member

abbrev any_policy : List SecurityIamPolicyFact → String → String → Bool
any_policy [] gsa member = false
any_policy (policy ∷ rest) gsa member =
    if contains_text policy.resource (append "/serviceAccounts/" gsa)
      && any_binding policy.bindings member
    then true
    else any_policy rest gsa member

unfoldable pub service_account_allows_impersonation :
    SecurityIamPolicyFacts → String → String → Bool
service_account_allows_impersonation facts gsa member = any_policy facts.policies gsa member

unfoldable pub legacy_member : String → KubernetesServiceAccountFact → String
legacy_member pool account =
    append "serviceAccount:"
      (append pool (append "[" (append account.namespace (append "/" (append account.name "]")))))

unfoldable pub map_gsa :
    SecurityIamPolicyFacts
    → GoMap String (List String)
    → String
    → KubernetesServiceAccountFact
    → KubernetesServiceAccountFact
unfolding legacy_member
map_gsa facts roles pool account =
    if account.google_service_account == "" then account else record account {
      mapped_gsa_roles =
          append_unique_roles account.mapped_gsa_roles
            (roles_of (append "serviceAccount:" account.google_service_account) roles);
      impersonation_verified =
          service_account_allows_impersonation facts account.google_service_account
            (legacy_member pool account)
          || account.impersonation_verified;
    }

unfoldable pub sort_roles : KubernetesServiceAccountFact → KubernetesServiceAccountFact
sort_roles account = record account {
  direct_roles = sort_strings account.direct_roles;
  namespace_roles = sort_strings account.namespace_roles;
  mapped_gsa_roles = sort_strings account.mapped_gsa_roles;
}

-- The body of the loop over the service accounts.
unfoldable pub correlate_account :
    RangeOver
    → SecurityIamPolicyFacts
    → GoMap String (List String)
    → String
    → KubernetesServiceAccountFact
    → KubernetesServiceAccountFact
unfolding map_gsa sort_roles
correlate_account range_over facts roles pool account = sort_roles (
    map_gsa facts roles pool
      (correlate_members pool account ((range_over account).entries roles) account))

unfoldable pub correlate_cluster :
    RangeOver
    → SecurityIamPolicyFacts
    → GoMap String (List String)
    → WorkloadIdentitySecurityFact
    → WorkloadIdentitySecurityFact
correlate_cluster range_over facts roles cluster = record cluster {
  service_accounts =
      map (correlate_account range_over facts roles cluster.workload_pool) cluster.service_accounts;
}

-- The nil pointer is none.
unfoldable pub correlate_workload_identity :
    RangeOver
    → Option WorkloadIdentitySecurityFacts
    → SecurityIamPolicyFacts
    → Option WorkloadIdentitySecurityFacts
correlate_workload_identity range_over none iam_facts = none
correlate_workload_identity range_over (some facts) iam_facts = some (record facts {
  clusters =
      map (correlate_cluster range_over iam_facts (roles_by_member iam_facts)) facts.clusters;
})
