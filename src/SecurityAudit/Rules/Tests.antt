-- ===== src/SecurityAudit/Rules/Tests.antt =====
-- A project with a public bucket, an open port and a deny that closes it.
use aura_tracker_gcp.SecurityAudit.Rules.Workloads.{evaluate_workload_identity}
use aura_tracker_gcp.SecurityAudit.Rules.Services.{evaluate_public_services}
use aura_tracker_gcp.SecurityAudit.Rules.Accounts.{evaluate_secrets, evaluate_service_accounts}
use aura_tracker_gcp.GoSort.{sort_in, slice_stable}
use aura_tracker_gcp.GoText.{has_suffix, digits_value, every_digit, trim_prefix, atoi, cut}
use Prim.Native.String.{String}
use aura_tracker_gcp.Prelude.{
  ℕ, true, false, none, some, List, [], ◌∷◌, ◌≡◌, refl, arith, ◌==◌, string_eq, nat_eq, Member, inl,
}
use aura_tracker_gcp.GoMap.{lookup}
use aura_tracker_gcp.GoSort.Sorted.{IsSorted}
use aura_tracker_gcp.Message.{pos}
use aura_tracker_gcp.SecurityAudit.Facts.{
  SecurityIamBindingFact, SecurityIamPolicyFact, SecurityIamPolicyFacts,
}
use aura_tracker_gcp.SecurityAudit.NetworkFacts.{FirewallProtocolFact, FirewallSecurityFact}
use aura_tracker_gcp.SecurityAudit.Report.{SecurityFinding}
use aura_tracker_gcp.SecurityAudit.Checks.{CollectedFacts}
use aura_tracker_gcp.SecurityAudit.Rules.{all_findings, evaluate_rules}
use aura_tracker_gcp.SecurityAudit.Rules.Finding.{RuleOps, new_finding}
use aura_tracker_gcp.SecurityAudit.Rules.Roles.{
  contains, is_privileged_role, is_public_member, is_public_invocation_role, is_secret_access_role,
}
use aura_tracker_gcp.SecurityAudit.Rules.Iam.{iam_001, member_findings, evaluate_iam}
use aura_tracker_gcp.SecurityAudit.Rules.Iam.Public.{
  note_of, IsPublicGrant, Reports, evaluate_iam-IsPublicGrant, evaluate_iam-Reports,
}
use aura_tracker_gcp.SecurityAudit.Rules.Ports.{parse_port_range, port_ranges_cover, ports_contain}
use aura_tracker_gcp.SecurityAudit.Rules.Ports.Cover.{port_ranges_cover-ports_contain}
use aura_tracker_gcp.SecurityAudit.Rules.Firewalls.Reach.{
  firewall_protocols_cover, add_tag_names, effective_secure_tag_names, firewall_targets_cover,
  allows_world, is_shadowing, fully_shadowing_deny,
}
use aura_tracker_gcp.SecurityAudit.Rules.Firewalls.Shadow.{
  IsFold, Overrules, fully_shadowing_deny-Overrules,
}
use aura_tracker_gcp.SecurityAudit.Rules.Order.{finding_less, deduplicate_and_sort}
use aura_tracker_gcp.SecurityAudit.Rules.Order.Kept.{DistinctIds, HasId, deduplicate_and_sort_kept}
use aura_tracker_gcp.SecurityAudit.Rules.Origin.{IsCollected, evaluate_rules-IsCollected}

-- Texts that are their own folds, and no dates.
abbrev pub simple : RuleOps
simple = record {
  digest = λ m. "000000";
  parse_time = λ s. none;
  whole_days = λ d. d;
  to_upper = λ s. s;
  to_lower = λ s. s;
  equal_fold = λ s t. s == t;
  parse_cidr = λ s. none;
}

simple-IsFold : IsFold simple
simple-IsFold = record {
  fold_trans = λ a b c h k.
      ground (arith, string_eq.equals_iff a b, string_eq.equals_iff b c, string_eq.equals_iff a c);
}

abbrev viewers : SecurityIamBindingFact
viewers = record { role = "roles/viewer"; members = "allUsers" ∷ []; condition = none }

abbrev bucket : SecurityIamPolicyFact
bucket = record {
  resource = "//storage/b";
  asset_type = "Bucket";
  origin_scope = "projects/p";
  scope_type = "project";
  policy_kind = "resource";
  inherited = false;
  bindings = viewers ∷ [];
}

abbrev public_bucket : SecurityIamPolicyFacts
public_bucket = record {
  hierarchy = record { project_id = "p"; project_number = "1"; organization = ""; nodes = [] };
  policies = bucket ∷ [];
  deny_rules = [];
  coverage = [];
  truncated = false;
}

abbrev pub project : CollectedFacts
project = record {
  iam = public_bucket;
  service_accounts = record { service_accounts = [] };
  secrets = record { secrets = []; warnings = [] };
  public_services = record { services = []; coverage = []; warnings = [] };
  firewalls = record { firewalls = []; coverage = [] };
  workload_identity = record { clusters = []; coverage = []; warnings = [] };
  recommendations = record {
    recommendations = [];
    enabled = false;
    truncated = false;
    warnings = [];
  };
  errors = ("firewall", record { message = "permission denied"; quota = none }) ∷ [];
  recommendation_err = none;
}

abbrev rule :
    String → ℕ → List FirewallProtocolFact → List FirewallProtocolFact → FirewallSecurityFact
rule action order allowed denied = record {
  name = action;
  resource_name = action;
  network = "default";
  direction = "INGRESS";
  priority = pos 1000;
  source_ranges = "0.0.0.0/0" ∷ [];
  destination_ranges = [];
  source_tags = [];
  target_tags = [];
  source_service_accounts = [];
  target_service_accounts = [];
  allowed = allowed;
  denied = denied;
  logging_enabled = true;
  disabled = false;
  layer = "vpc";
  policy_name = "";
  policy_type = "";
  action = action;
  region = "";
  association_priority = pos 0;
  effective_order = pos order;
  target_secure_tags = [];
  source_secure_tags = [];
  source_address_groups = [];
  source_fqdns = [];
  source_networks = [];
  source_region_codes = [];
  source_threat_intelligence = [];
  source_network_context = "";
  source_network_type = "";
}

abbrev ssh : FirewallSecurityFact
ssh = rule "allow" 2 (record { protocol = "tcp"; ports = "22" ∷ [] } ∷ []) []

abbrev closed : FirewallSecurityFact
closed = rule "deny" 1 [] (record { protocol = "tcp"; ports = "1-1024" ∷ [] } ∷ [])

port_ranges_cover-ports_contain_example : ports_contain ("1-1024" ∷ []) (pos 22) ≡ true
unfolding port_ranges_cover ports_contain parse_port_range cut atoi trim_prefix every_digit
    digits_value
port_ranges_cover-ports_contain_example =
    port_ranges_cover-ports_contain ("1-1024" ∷ []) ("20-25" ∷ []) (pos 22) refl refl

closed_shadows : fully_shadowing_deny simple ssh (ssh ∷ closed ∷ []) ≡ some closed
unfolding fully_shadowing_deny is_shadowing allows_world firewall_targets_cover
    effective_secure_tag_names slice_stable add_tag_names firewall_protocols_cover port_ranges_cover
    parse_port_range cut atoi trim_prefix every_digit digits_value
closed_shadows = refl

fully_shadowing_deny-Overrules_example :
    Member closed (ssh ∷ closed ∷ []) × Overrules simple closed ssh
fully_shadowing_deny-Overrules_example =
    fully_shadowing_deny-Overrules simple simple-IsFold ssh closed (ssh ∷ closed ∷ [])
      closed_shadows

viewers_public : IsPublicGrant public_bucket "//storage/b" "roles/viewer"
unfolding is_public_member is_public_invocation_role is_secret_access_role
viewers_public =
    ("allUsers", (bucket, viewers, inl refl, inl refl, inl refl, refl, refl), refl, refl, refl)

evaluate_iam-Reports_example :
    (f : SecurityFinding) × Member f (evaluate_iam simple public_bucket)
    × Reports simple public_bucket f "//storage/b" "roles/viewer"
evaluate_iam-Reports_example =
    evaluate_iam-Reports simple public_bucket "//storage/b" "roles/viewer" viewers_public

abbrev pub reported_bucket : SecurityFinding
reported_bucket =
    iam_001 simple "high" "//storage/b" (note_of simple public_bucket bucket viewers "allUsers")

bucket_found : Member reported_bucket (evaluate_iam simple public_bucket)
unfolding evaluate_iam member_findings note_of is_public_member is_public_invocation_role
    is_secret_access_role is_privileged_role has_suffix
bucket_found = inl refl

evaluate_iam-IsPublicGrant_example :
    (resource role : String) × IsPublicGrant public_bucket resource role
    × Reports simple public_bucket reported_bucket resource role
unfolding new_finding
evaluate_iam-IsPublicGrant_example =
    evaluate_iam-IsPublicGrant simple public_bucket reported_bucket bucket_found refl

deduplicate_and_sort_kept_example :
    IsSorted finding_less (deduplicate_and_sort (reported_bucket ∷ reported_bucket ∷ []))
    × DistinctIds (deduplicate_and_sort (reported_bucket ∷ reported_bucket ∷ []))
    × ((f : SecurityFinding)
        → Member f (deduplicate_and_sort (reported_bucket ∷ reported_bucket ∷ []))
        → Member f (reported_bucket ∷ reported_bucket ∷ []))
    × ((f : SecurityFinding)
        → Member f (reported_bucket ∷ reported_bucket ∷ [])
        → HasId f.id (deduplicate_and_sort (reported_bucket ∷ reported_bucket ∷ [])))
deduplicate_and_sort_kept_example =
    deduplicate_and_sort_kept (reported_bucket ∷ reported_bucket ∷ [])

audit_found : Member reported_bucket (evaluate_rules simple project 0 "p")
unfolding evaluate_rules all_findings evaluate_iam member_findings note_of deduplicate_and_sort
    slice_stable lookup is_public_member is_public_invocation_role is_secret_access_role contains
    sort_in evaluate_service_accounts evaluate_secrets evaluate_public_services
    evaluate_workload_identity is_privileged_role has_suffix
audit_found = inl refl

evaluate_rules-IsCollected_example : IsCollected project reported_bucket
evaluate_rules-IsCollected_example =
    evaluate_rules-IsCollected simple project 0 "p" reported_bucket audit_found
