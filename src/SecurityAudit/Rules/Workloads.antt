-- ===== src/SecurityAudit/Rules/Workloads.antt =====
-- `evaluateWorkloadIdentity` and `evaluateProviderRecommendations` of
-- internal/securityaudit/rules.go.
use Prim.Native.String.{String, ◌++◌ as append}
use aura_tracker_gcp.Prelude.{
  ◌+◌, Bool, false, not, ◌&&◌, ◌||◌, List, [], ◌∷◌, ◌++◌, ◌==◌, string_eq, nat_eq, if◌then◌else◌,
  ltb, length, flat_map,
}
use aura_tracker_gcp.GoText.{contains_text, join}
use aura_tracker_gcp.Message.{pos, Message, text, decimal, plain}
use aura_tracker_gcp.SecurityAudit.Facts.{SecurityCoverageUnit}
use aura_tracker_gcp.SecurityAudit.NetworkFacts.{
  NodePoolIdentityFact, KubernetesServiceAccountFact, WorkloadIdentitySecurityFact,
  WorkloadIdentitySecurityFacts, SecurityRecommendationFact, SecurityRecommendationFacts,
}
use aura_tracker_gcp.SecurityAudit.Report.{SecurityFinding}
use aura_tracker_gcp.SecurityAudit.Rules.Finding.{RuleOps, new_finding, empty_as}
use aura_tracker_gcp.SecurityAudit.Rules.Roles.{contains, privileged_roles}

abbrev pub wif_001 : RuleOps → String → List Message → SecurityFinding
wif_001 ops resource evidence =
    new_finding ops "WIF-001" "medium" "workload_identity"
      "Workload Identity Federation is disabled" resource
      "Pods might rely on node credentials or long-lived service-account keys for Google API access."
      "Enable Workload Identity Federation and grant each workload a narrowly scoped identity."
      "https://cloud.google.com/kubernetes-engine/docs/concepts/workload-identity" evidence

abbrev pub wif_002 : RuleOps → String → List Message → SecurityFinding
wif_002 ops resource evidence =
    new_finding ops "WIF-002" "high" "workload_identity"
      "Node pool does not use the GKE metadata server" resource
      "Workloads on this node pool can miss the identity isolation expected from Workload Identity Federation."
      "Update the node pool to use GKE_METADATA after validating workload compatibility."
      "https://cloud.google.com/kubernetes-engine/docs/concepts/workload-identity" evidence

abbrev pub wif_003 : RuleOps → String → List Message → SecurityFinding
wif_003 ops resource evidence =
    new_finding ops "WIF-003" "medium" "workload_identity"
      "Node pool uses the default Compute Engine service account" resource
      "A shared default node identity increases the blast radius of node-level credential access."
      "Use a dedicated least-privilege node service account and workload-specific federated identities."
      "https://cloud.google.com/kubernetes-engine/docs/concepts/workload-identity" evidence

abbrev pub wif_004 : RuleOps → String → List Message → SecurityFinding
wif_004 ops resource evidence =
    new_finding ops "WIF-004" "high" "workload_identity"
      "Kubernetes service-account mapping cannot impersonate its GSA" resource
      "The annotation claims an identity mapping, but the target Google service account does not authorize it."
      "Grant roles/iam.workloadIdentityUser on the target GSA to this exact KSA, or remove the stale annotation."
      "https://cloud.google.com/kubernetes-engine/docs/concepts/workload-identity" evidence

abbrev pub wif_005 : RuleOps → String → String → List Message → SecurityFinding
wif_005 ops severity resource evidence =
    new_finding ops "WIF-005" severity "workload_identity"
      "Kubernetes workload identity has a privileged Google Cloud role" resource
      "A compromised pod can exercise broad permissions through its federated or mapped identity."
      "Replace broad roles with resource-scoped, task-specific permissions for this workload."
      "https://cloud.google.com/kubernetes-engine/docs/concepts/workload-identity" evidence

abbrev pub wif_006 : RuleOps → String → String → List Message → SecurityFinding
wif_006 ops severity resource evidence =
    new_finding ops "WIF-006" severity "workload_identity"
      "Google Cloud role is granted to an entire Kubernetes namespace" resource
      "Every KSA in the namespace can receive the grant, increasing blast radius as workloads are added."
      "Grant the role to exact KSA principals unless namespace-wide access is explicitly required."
      "https://cloud.google.com/kubernetes-engine/docs/concepts/workload-identity" evidence

abbrev pub wif_007 : RuleOps → String → List Message → SecurityFinding
wif_007 ops resource evidence =
    new_finding ops "WIF-007" "high" "workload_identity"
      "Default Kubernetes service account has Google Cloud access" resource
      "Unspecified workloads in the namespace inherit the same Google Cloud identity and permissions."
      "Create a dedicated KSA per workload and grant only the roles that workload needs."
      "https://cloud.google.com/kubernetes-engine/docs/concepts/workload-identity" evidence

abbrev pub wif_008 : RuleOps → String → List Message → SecurityFinding
wif_008 ops resource evidence =
    new_finding ops "WIF-008" "medium" "workload_identity"
      "KSA mixes direct federation and GSA impersonation" resource
      "Two authorization paths make effective permissions harder to review and revoke."
      "Choose direct KSA principal grants or GSA impersonation for this workload and remove the redundant path."
      "https://cloud.google.com/kubernetes-engine/docs/concepts/workload-identity" evidence

abbrev pub rec_001 : RuleOps → String → String → List Message → SecurityFinding
rec_001 ops severity resource evidence =
    new_finding ops "REC-001" severity "iam" "Google Active Assist security recommendation" resource
      "Google observed permission usage or policy structure that can be tightened."
      "Review the Active Assist recommendation and validate its proposed IAM change before applying it."
      "https://cloud.google.com/policy-intelligence/docs/role-recommendations-overview" evidence

abbrev when : Bool → SecurityFinding → List SecurityFinding
when test finding = if test then finding ∷ [] else []

unfoldable pub gsa_impersonation_coverage_complete : List SecurityCoverageUnit → String → Bool
gsa_impersonation_coverage_complete [] gsa = false
gsa_impersonation_coverage_complete (unit ∷ rest) gsa =
    if unit.collector == "gsa_impersonation_policy" && contains_text unit.scope gsa
    then unit.status == "complete"
    else gsa_impersonation_coverage_complete rest gsa

abbrev append3 : String → String → String → String
append3 a b c = append a (append b c)

unfoldable pub pool_findings :
    RuleOps → WorkloadIdentitySecurityFact → NodePoolIdentityFact → List SecurityFinding
pool_findings ops cluster pool =
    let resource = append3 cluster.resource_name "/nodePools/" pool.name in
    when (not (cluster.workload_pool == "") && not (pool.metadata_mode == "GKE_METADATA")) (
      wif_002 ops resource
        (plain (append "metadata mode is " (empty_as pool.metadata_mode "unspecified")) ∷ []))
    ++ when
        (pool.service_account == ""
          || pool.service_account == "default"
          || contains_text pool.service_account "-compute@developer.gserviceaccount.com")
        (wif_003 ops resource (
          plain (append "node service account is " (empty_as pool.service_account "default")) ∷ []))

unfoldable pub workload_findings :
    RuleOps
    → List SecurityCoverageUnit
    → WorkloadIdentitySecurityFact
    → KubernetesServiceAccountFact
    → List SecurityFinding
workload_findings ops coverage cluster account =
    let resource =
      append3 cluster.resource_name "/kubernetes/namespaces/"
        (append3 account.namespace "/serviceAccounts/" account.name) in
    let privileged = privileged_roles (account.direct_roles ++ account.mapped_gsa_roles) in
    when
      (not (account.google_service_account == "")
        && not account.impersonation_verified
        && gsa_impersonation_coverage_complete coverage account.google_service_account)
      (wif_004 ops resource (
        plain (append "annotated GSA: " account.google_service_account)
        ∷ plain "no matching workloadIdentityUser binding"
        ∷ []))
    ++ when (ltb 0 (length privileged)) (
        wif_005 ops
          (if contains privileged "roles/owner" || contains privileged "roles/editor"
            then "critical"
            else "high")
          resource
          (plain (append "privileged roles: " (join privileged ", "))
            ∷ (text "used by "
                ∷ decimal (pos (length account.workloads))
                ∷ text " workload(s)"
                ∷ [])
            ∷ []))
    ++ when (ltb 0 (length account.namespace_roles)) (
        wif_006 ops
          (if ltb 0 (length (privileged_roles account.namespace_roles)) then "high" else "medium")
          resource (plain (append "namespace roles: " (join account.namespace_roles ", ")) ∷ []))
    ++ when
        (account.name == "default"
          && ltb 0 (length account.workloads)
          && ltb 0 (
              length account.direct_roles
              + length account.namespace_roles
              + length account.mapped_gsa_roles))
        (wif_007 ops resource (
          (text "default KSA is used by "
            ∷ decimal (pos (length account.workloads))
            ∷ text " workload(s)"
            ∷ [])
          ∷ []))
    ++ when (not (account.google_service_account == "") && ltb 0 (length account.direct_roles)) (
        wif_008 ops resource (
          plain (append "direct roles: " (join account.direct_roles ", "))
          ∷ plain (append "annotated GSA: " account.google_service_account)
          ∷ []))

unfoldable pub cluster_findings :
    RuleOps → List SecurityCoverageUnit → WorkloadIdentitySecurityFact → List SecurityFinding
cluster_findings ops coverage cluster =
    when (cluster.workload_pool == "")
      (wif_001 ops cluster.resource_name (plain "cluster has no workload identity pool" ∷ []))
    ++ flat_map (pool_findings ops cluster) cluster.node_pools
    ++ flat_map (workload_findings ops coverage cluster) cluster.service_accounts

unfoldable pub evaluate_workload_identity :
    RuleOps → WorkloadIdentitySecurityFacts → List SecurityFinding
evaluate_workload_identity ops facts = flat_map (cluster_findings ops facts.coverage) facts.clusters

abbrev first_resource : String → List String → String
first_resource fallback [] = fallback
first_resource fallback (resource ∷ rest) = resource

unfoldable pub recommendation_finding :
    RuleOps → String → SecurityRecommendationFact → SecurityFinding
recommendation_finding ops project_id recommendation =
    record (rec_001 ops
      (if recommendation.priority == "P1"
        then "high"
        else if recommendation.priority == "P2"
        then "medium"
        else "low")
      (first_resource (append "//cloudresourcemanager.googleapis.com/projects/" project_id)
        recommendation.target_resources)
      (plain recommendation.description ∷ plain (append "subtype: " recommendation.subtype) ∷ [])) {
        source = "active-assist";
        confidence = "medium";
      }

unfoldable pub evaluate_provider_recommendations :
    RuleOps → SecurityRecommendationFacts → String → List SecurityFinding
evaluate_provider_recommendations ops facts project_id =
    flat_map (λ recommendation. recommendation_finding ops project_id recommendation ∷ [])
      facts.recommendations
