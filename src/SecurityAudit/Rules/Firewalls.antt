-- ===== src/SecurityAudit/Rules/Firewalls.antt =====
-- `evaluateFirewalls` of internal/securityaudit/rules.go.
use aura_tracker_gcp.SecurityAudit.Rules.Ports.{
  ports_contain, ports_subset_of_web, port_ranges_cover,
}
use aura_tracker_gcp.SecurityAudit.Rules.Services.{append_unique_int, show_ports}
pub mod Reach
pub mod Shadow
use aura_tracker_gcp.SecurityAudit.Rules.Firewalls.Reach.{
  allows_world, effective_secure_tag_names, has_potential_firewall_target, fully_shadowing_deny,
}
use Prim.Native.String.{String, ◌++◌ as append}
use aura_tracker_gcp.Prelude.{
  ℕ, zero, suc, ◌+◌, ◌-◌, ◌/◌, ◌<◌, Bool, true, false, not, ◌&&◌, ◌||◌, Option, none, some, List,
  [], ◌∷◌, ◌++◌, ◌==◌, string_eq, nat_eq, if◌then◌else◌, ltb, leb, length, flat_map,
}
use aura_tracker_gcp.GoMap.{GoMap, lookup, insert}
use aura_tracker_gcp.GoText.{
  has_prefix, has_suffix, contains_text, trim_prefix, cut, join, atoi, le_ℤ,
}
use aura_tracker_gcp.GoSort.{slice_stable, sort_strings}
use aura_tracker_gcp.Message.{ℤ, pos, negsuc, sub_ℕ, Message, text, decimal, plain}
use aura_tracker_gcp.SecurityAudit.Facts.{
  SecurityIamCondition, SecurityIamBindingFact, SecurityIamPolicyFact, SecurityIamPolicyFacts,
  ServiceAccountKeyFact, ServiceAccountSecurityFact, ServiceAccountSecurityFacts,
  SecretVersionSecurityFact, SecretSecurityFact, SecretSecurityFacts, SecurityCoverageUnit,
}
use aura_tracker_gcp.SecurityAudit.NetworkFacts.{
  PublicServiceSecurityFact, PublicServiceSecurityFacts, FirewallProtocolFact, FirewallSecurityFact,
  FirewallSecurityFacts, NodePoolIdentityFact, KubernetesServiceAccountFact,
  WorkloadIdentitySecurityFact, WorkloadIdentitySecurityFacts, SecurityRecommendationFact,
  SecurityRecommendationFacts,
}
use aura_tracker_gcp.SecurityAudit.Report.{SecurityFinding}
use aura_tracker_gcp.SecurityAudit.Rules.Finding.{RuleOps, new_finding, compact_evidence, empty_as}
use aura_tracker_gcp.SecurityAudit.Rules.Roles.{
  is_public_member, is_public_invocation_role, is_secret_access_role, is_privileged_role,
  is_google_managed_service_agent, is_default_service_account, is_project_resource, contains,
  append_unique_roles, public_roles_for_resource, roles_by_member, roles_of,
  member_has_privileged_role, privileged_roles, matching_deny_rule_count,
}

abbrev pub fw_001 : RuleOps → String → List Message → SecurityFinding
fw_001 ops resource evidence =
    new_finding ops "FW-001" "critical" "firewall" "Firewall allows unrestricted internet ingress"
      resource "Any reachable workload can be probed on every permitted protocol and port."
      "Restrict source ranges, protocols, ports, and target service accounts to the minimum required."
      "https://cloud.google.com/firewall/docs/firewalls" evidence

abbrev pub fw_002 : RuleOps → String → List Message → SecurityFinding
fw_002 ops resource evidence =
    new_finding ops "FW-002" "high" "firewall" "Sensitive ports are exposed to the internet"
      resource
      "Administrative and database services are frequent targets for credential attacks and exploitation."
      "Restrict access to trusted CIDRs or identity-aware access and target only intended workloads."
      "https://cloud.google.com/firewall/docs/firewalls" evidence

abbrev pub fw_003 : RuleOps → String → List Message → SecurityFinding
fw_003 ops resource evidence =
    new_finding ops "FW-003" "medium" "firewall" "Web ingress is open to the internet" resource
      "Public web exposure should be intentional and terminate through the expected load-balancing controls."
      "Confirm the rule is required, target only web workloads, and use an external load balancer with appropriate protections."
      "https://cloud.google.com/firewall/docs/firewalls" evidence

abbrev pub fw_004 : RuleOps → String → List Message → SecurityFinding
fw_004 ops resource evidence =
    new_finding ops "FW-004" "low" "firewall" "Disabled firewall rule has dangerous configuration"
      resource "Re-enabling this rule would expose sensitive traffic from the internet."
      "Delete the obsolete rule or narrow it before any future enablement."
      "https://cloud.google.com/firewall/docs/firewalls" evidence

abbrev pub fw_005 : RuleOps → String → List Message → SecurityFinding
fw_005 ops resource evidence =
    new_finding ops "FW-005" "low" "firewall" "Internet-facing firewall rule has logging disabled"
      resource
      "Without rule logging, access reviews and incident investigation have less network evidence."
      "Enable firewall rule logging after reviewing expected log volume and cost."
      "https://cloud.google.com/firewall/docs/firewalls" evidence

abbrev pub fw_006 : RuleOps → String → List Message → SecurityFinding
fw_006 ops resource evidence =
    new_finding ops "FW-006" "low" "firewall" "Internet allow rule is shadowed by an effective deny"
      resource
      "A stale allow rule obscures the effective policy and could become active after unrelated policy changes."
      "Remove the obsolete allow rule or document why it must remain."
      "https://cloud.google.com/firewall/docs/firewalls" evidence

abbrev watched_ports : List ℤ
watched_ports =
    pos 22
    ∷ pos 23
    ∷ pos 3389
    ∷ pos 3306
    ∷ pos 5432
    ∷ pos 6379
    ∷ pos 27017
    ∷ pos 9200
    ∷ pos 11211
    ∷ []

abbrev add_dangerous : List String → List ℤ → List ℤ → List ℤ
add_dangerous ranges [] dangerous = dangerous
add_dangerous ranges (port ∷ rest) dangerous =
    add_dangerous ranges rest
      (if ports_contain ranges port then append_unique_int dangerous port else dangerous)

-- What the loop over the allowed protocols finds.
pub record Exposure : Type 0 where
  pub all_traffic : Bool
  pub dangerous : List ℤ
  pub web_only : Bool

unfoldable pub expose : RuleOps → FirewallProtocolFact → Exposure → Exposure
expose ops allowed seen =
    let protocol = ops.to_lower allowed.protocol in
    let transport = protocol == "tcp" || protocol == "udp" in
    let everything = protocol == "all" || (transport && length allowed.ports == 0) in
    record {
      all_traffic = everything || seen.all_traffic;
      dangerous =
          if transport
          then add_dangerous allowed.ports watched_ports seen.dangerous
          else seen.dangerous;
      web_only =
          if everything || not (protocol == "tcp") || not (ports_subset_of_web allowed.ports)
          then false
          else seen.web_only;
    }

unfoldable pub exposure : RuleOps → List FirewallProtocolFact → Exposure → Exposure
exposure ops [] seen = seen
exposure ops (allowed ∷ rest) seen = exposure ops rest (expose ops allowed seen)

abbrev with_network : Bool → Message → List Message
with_network no_target message =
    message ∷ (if no_target then plain "applies to all instances in the network" ∷ [] else [])

abbrev has_no_target : RuleOps → FirewallSecurityFact → Bool
has_no_target ops fw =
    length fw.target_tags == 0
    && length fw.target_service_accounts == 0
    && length (effective_secure_tag_names ops fw.target_secure_tags) == 0

abbrev when : Bool → SecurityFinding → List SecurityFinding
when test finding = if test then finding ∷ [] else []

-- An enabled rule that no deny shadows.
unfoldable pub open_findings : RuleOps → FirewallSecurityFact → Exposure → List SecurityFinding
open_findings ops fw seen =
    (if seen.all_traffic
      then fw_001 ops fw.resource_name (
          with_network (has_no_target ops fw)
            (plain "allows all ports or protocols from the internet"))
        ∷ []
      else if ltb 0 (length seen.dangerous)
      then fw_002 ops fw.resource_name (
          with_network (has_no_target ops fw)
            (text "internet ingress reaches sensitive ports " ∷ show_ports seen.dangerous))
        ∷ []
      else when seen.web_only
          (fw_003 ops fw.resource_name (plain "allows tcp:80/443 from the internet" ∷ [])))
    ++ when (not fw.logging_enabled) (
        fw_005 ops fw.resource_name
          (plain "logging is disabled on an active world-accessible allow rule" ∷ []))

abbrev pub unless_shadowed :
    RuleOps → FirewallSecurityFact → Exposure → Option FirewallSecurityFact → List SecurityFinding
unless_shadowed ops fw seen none = open_findings ops fw seen
unless_shadowed ops fw seen (some deny) =
    fw_006 ops fw.resource_name (plain (append "shadowed by " deny.resource_name) ∷ []) ∷ []

-- The guard at the head of the loop: an ingress rule that the internet can reach.
unfoldable pub faces_internet : RuleOps → FirewallSecurityFact → Bool
faces_internet ops fw =
    ops.to_upper fw.direction == "INGRESS"
    && allows_world ops fw
    && ltb 0 (length fw.allowed)
    && has_potential_firewall_target ops fw

unfoldable pub firewall_findings :
    RuleOps → List FirewallSecurityFact → FirewallSecurityFact → List SecurityFinding
unfolding exposure fully_shadowing_deny
firewall_findings ops firewalls fw =
    let seen =
      exposure ops fw.allowed (record { all_traffic = false; dangerous = []; web_only = true }) in
    if not (faces_internet ops fw)
    then []
    else if fw.disabled
    then when (seen.all_traffic || ltb 0 (length seen.dangerous)) (
        fw_004 ops fw.resource_name
          (plain "world-accessible allow rule is currently disabled" ∷ []))
    else unless_shadowed ops fw seen (fully_shadowing_deny ops fw firewalls)

unfoldable pub evaluate_firewalls : RuleOps → FirewallSecurityFacts → List SecurityFinding
evaluate_firewalls ops facts = flat_map (firewall_findings ops facts.firewalls) facts.firewalls
