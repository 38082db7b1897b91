-- ===== src/SecurityAudit/Correlate/Tests.antt =====
-- A service account of a cluster to which its project grants a role.
use Prim.Native.String.{String}
use aura_tracker_gcp.Prelude.{false, none, List, [], ◌∷◌, string_eq}
use aura_tracker_gcp.GoMap.Range.{Range, as_listed}
use aura_tracker_gcp.SecurityAudit.Facts.{SecurityIamPolicyFacts}
use aura_tracker_gcp.SecurityAudit.NetworkFacts.{KubernetesServiceAccountFact}
use aura_tracker_gcp.SecurityAudit.Rules.Roles.{roles_by_member}
use aura_tracker_gcp.SecurityAudit.Correlate.{is_direct, correlate_account}
use aura_tracker_gcp.SecurityAudit.Correlate.Roles.{Gains}
use aura_tracker_gcp.SecurityAudit.Correlate.Gained.{
  only_namespace, is_google, correlate_account-Gains,
}

abbrev web : KubernetesServiceAccountFact
web = record {
  namespace = "shop";
  name = "web";
  google_service_account = "";
  automount_service_account_token = none;
  workloads = [];
  direct_roles = [];
  namespace_roles = [];
  mapped_gsa_roles = [];
  impersonation_verified = false;
}

abbrev principal : String
principal =
    "principal://iam/projects/1/locations/global/workloadIdentityPools/p.svc.id.goog/subject/ns/shop/sa/web"

abbrev grants : SecurityIamPolicyFacts
grants = record {
  hierarchy = record { project_id = "p"; project_number = "1"; organization = ""; nodes = [] };
  policies =
      record {
        resource = "//cloudresourcemanager.googleapis.com/projects/p";
        asset_type = "Project";
        origin_scope = "projects/p";
        scope_type = "project";
        policy_kind = "allow";
        inherited = false;
        bindings =
            record { role = "roles/viewer"; members = principal ∷ []; condition = none } ∷ [];
      }
      ∷ [];
  deny_rules = [];
  coverage = [];
  truncated = false;
}

abbrev in_order : KubernetesServiceAccountFact → Range (List String)
in_order account = as_listed

correlate_account-Gains_example :
    Gains grants
      (is_direct "p.svc.id.goog" web)
      []
      (correlate_account in_order grants (roles_by_member grants) "p.svc.id.goog" web).direct_roles
      "roles/viewer"
    × Gains grants
        (only_namespace "p.svc.id.goog" web)
        []
        (correlate_account in_order grants
          (roles_by_member grants)
          "p.svc.id.goog"
          web).namespace_roles
        "roles/viewer"
    × Gains grants
        (is_google web)
        []
        (correlate_account in_order grants
          (roles_by_member grants)
          "p.svc.id.goog"
          web).mapped_gsa_roles
        "roles/viewer"
correlate_account-Gains_example =
    correlate_account-Gains in_order grants "p.svc.id.goog" web "roles/viewer"
