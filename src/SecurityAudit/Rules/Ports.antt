-- ===== src/SecurityAudit/Rules/Ports.antt =====
-- The port ranges of internal/securityaudit/rules.go.
pub mod Cover
use Prim.Native.String.{String, ◌++◌ as append}
use aura_tracker_gcp.Prelude.{
  ℕ, zero, suc, ◌+◌, ◌-◌, ◌/◌, ◌<◌, Bool, true, false, not, ◌&&◌, ◌||◌, Option, none, some, List,
  [], ◌∷◌, ◌++◌, ◌==◌, string_eq, nat_eq, if◌then◌else◌, ltb, leb, length, flat_map,
}
use aura_tracker_gcp.GoMap.{GoMap, lookup, insert}
use aura_tracker_gcp.GoText.{
  has_prefix, has_suffix, contains_text, trim_prefix, cut, join, atoi, le_ℤ,
}
use aura_tracker_gcp.GoSort.{slice_stable, sort_strings}
use aura_tracker_gcp.Message.{ℤ, pos, negsuc, sub_ℕ, Message, text, decimal, plain}
use aura_tracker_gcp.SecurityAudit.Facts.{
  SecurityIamCondition, SecurityIamBindingFact, SecurityIamPolicyFact, SecurityIamPolicyFacts,
  ServiceAccountKeyFact, ServiceAccountSecurityFact, ServiceAccountSecurityFacts,
  SecretVersionSecurityFact, SecretSecurityFact, SecretSecurityFacts, SecurityCoverageUnit,
}
use aura_tracker_gcp.SecurityAudit.NetworkFacts.{
  PublicServiceSecurityFact, PublicServiceSecurityFacts, FirewallProtocolFact, FirewallSecurityFact,
  FirewallSecurityFacts, NodePoolIdentityFact, KubernetesServiceAccountFact,
  WorkloadIdentitySecurityFact, WorkloadIdentitySecurityFacts, SecurityRecommendationFact,
  SecurityRecommendationFacts,
}
use aura_tracker_gcp.SecurityAudit.Report.{SecurityFinding}
use aura_tracker_gcp.SecurityAudit.Rules.Finding.{RuleOps, new_finding, compact_evidence, empty_as}
use aura_tracker_gcp.SecurityAudit.Rules.Roles.{
  is_public_member, is_public_invocation_role, is_secret_access_role, is_privileged_role,
  is_google_managed_service_agent, is_default_service_account, is_project_resource, contains,
  append_unique_roles, public_roles_for_resource, roles_by_member, roles_of,
  member_has_privileged_role, privileged_roles, matching_deny_rule_count,
}

-- strings.SplitN(value, "-", 2), each side read by Atoi
unfoldable pub parse_port_range : String → Option (ℤ × ℤ)
parse_port_range value = elim (cut value "-") [
  | none ↦ elim (atoi value) [ none ↦ none | some start ↦ some (start, start) ]
  | some (before, after) ↦ elim (atoi before) [
    | none ↦ none
    | some start ↦ elim (atoi after) [ none ↦ none | some end ↦ some (start, end) ]
  ]
]

abbrev pub within : ℤ → Option (ℤ × ℤ) → Bool
within wanted none = false
within wanted (some (start, end)) = le_ℤ start wanted && le_ℤ wanted end

-- The loop of portsContain: a range that does not read is passed over.
unfoldable pub any_within : List String → ℤ → Bool
any_within [] wanted = false
any_within (value ∷ rest) wanted =
    if within wanted (parse_port_range value) then true else any_within rest wanted

unfoldable pub ports_contain : List String → ℤ → Bool
unfolding any_within
ports_contain [] wanted = true
ports_contain (value ∷ rest) wanted = any_within (value ∷ rest) wanted

abbrev is_web : Option ℤ → Bool
is_web (some (pos port)) = port == 80 || port == 443
is_web _ = false

abbrev all_web : List String → Bool
all_web [] = true
all_web (value ∷ rest) =
    if contains_text value "-" then false else if is_web (atoi value) then all_web rest else false

-- portsSubsetOf(ranges, 80, 443)
unfoldable pub ports_subset_of_web : List String → Bool
ports_subset_of_web [] = false
ports_subset_of_web (value ∷ rest) = all_web (value ∷ rest)

abbrev pub inside : ℤ × ℤ → Option (ℤ × ℤ) → Bool
inside allowed none = false
inside allowed (some denied) = le_ℤ denied.0 allowed.0 && le_ℤ allowed.1 denied.1

-- The inner loop of portRangesCover.
unfoldable pub any_covers : List String → ℤ × ℤ → Bool
any_covers [] allowed = false
any_covers (denied_range ∷ rest) allowed =
    if inside allowed (parse_port_range denied_range) then true else any_covers rest allowed

-- The outer loop.
unfoldable pub all_covered : List String → List String → Bool
unfolding any_covers
all_covered denied [] = true
all_covered denied (allowed_range ∷ rest) = elim (parse_port_range allowed_range) [
  | none ↦ false
  | some allowed ↦ if any_covers denied allowed then all_covered denied rest else false
]

unfoldable pub port_ranges_cover : List String → List String → Bool
unfolding all_covered
port_ranges_cover [] allowed = true
port_ranges_cover (range ∷ denied) [] = false
port_ranges_cover (range ∷ denied) (first ∷ rest) = all_covered (range ∷ denied) (first ∷ rest)
