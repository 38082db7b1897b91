-- ===== src/SecurityAudit/Rules/Firewalls/Reach.antt =====
-- Which traffic a firewall rule of internal/securityaudit/rules.go reaches, and which deny shadows it.
use aura_tracker_gcp.SecurityAudit.Rules.Ports.{port_ranges_cover}
use Prim.Native.String.{String}
use aura_tracker_gcp.Prelude.{
  ◌+◌, Bool, true, false, not, ◌&&◌, ◌||◌, Option, none, some, List, [], ◌∷◌, ◌++◌, ◌==◌, string_eq,
  nat_eq, if◌then◌else◌, ltb, length,
}
use aura_tracker_gcp.GoText.{cut, le_ℤ}
use aura_tracker_gcp.GoSort.{sort_strings}
use aura_tracker_gcp.SecurityAudit.NetworkFacts.{FirewallProtocolFact, FirewallSecurityFact}
use aura_tracker_gcp.SecurityAudit.Rules.Finding.{RuleOps}
use aura_tracker_gcp.SecurityAudit.Rules.Roles.{contains}

abbrev is_world : String → Bool
is_world value = value == "0.0.0.0/0" || value == "::/0"

abbrev is_world_network : Option String → Bool
is_world_network none = false
is_world_network (some network) = is_world network

abbrev any_world : RuleOps → List String → Bool
any_world ops [] = false
any_world ops (value ∷ rest) =
    if is_world value
    then true
    else if is_world_network (ops.parse_cidr value)
    then true
    else any_world ops rest

unfoldable pub has_firewall_source_selector : FirewallSecurityFact → Bool
has_firewall_source_selector fw =
    ltb 0 (
      length fw.source_tags
      + length fw.source_service_accounts
      + length fw.source_secure_tags
      + length fw.source_address_groups
      + length fw.source_fqdns
      + length fw.source_networks
      + length fw.source_region_codes
      + length fw.source_threat_intelligence)
    || not (fw.source_network_context == "")
    || not (fw.source_network_type == "")

unfoldable pub allows_world : RuleOps → FirewallSecurityFact → Bool
unfolding has_firewall_source_selector
allows_world ops fw =
    if any_world ops fw.source_ranges
    then true
    else length fw.source_ranges == 0 && not (has_firewall_source_selector fw)

-- The name of a tag, before its state; the empty text for a tag that is not in effect.
abbrev pub effective_name : RuleOps → String → Option (String × String) → String
effective_name ops tag none = tag
effective_name ops tag (some (name, state)) =
    if ops.equal_fold state "INEFFECTIVE" then "" else name

unfoldable pub add_tag_names : RuleOps → List String → List String → List String
add_tag_names ops names [] = names
add_tag_names ops names (tag ∷ rest) =
    let name = effective_name ops tag (cut tag ":") in
    add_tag_names ops (if name == "" || contains names name then names else names ++ name ∷ []) rest

unfoldable pub effective_secure_tag_names : RuleOps → List String → List String
effective_secure_tag_names ops tags = sort_strings (add_tag_names ops [] tags)

unfoldable pub has_potential_firewall_target : RuleOps → FirewallSecurityFact → Bool
has_potential_firewall_target ops fw =
    if length fw.target_secure_tags == 0
      || ltb 0 (length fw.target_tags + length fw.target_service_accounts)
    then true
    else ltb 0 (length (effective_secure_tag_names ops fw.target_secure_tags))

abbrev pub all_contained : List String → List String → Bool
all_contained superset [] = true
all_contained superset (value ∷ rest) =
    if contains superset value then all_contained superset rest else false

unfoldable pub string_set_covers : List String → List String → Bool
string_set_covers superset [] = length superset == 0
string_set_covers superset (value ∷ rest) = all_contained superset (value ∷ rest)

unfoldable pub firewall_targets_cover : RuleOps → FirewallSecurityFact → FirewallSecurityFact → Bool
unfolding has_potential_firewall_target
firewall_targets_cover ops deny allow =
    let deny_secure_tags = effective_secure_tag_names ops deny.target_secure_tags in
    let allow_secure_tags = effective_secure_tag_names ops allow.target_secure_tags in
    if not (has_potential_firewall_target ops deny)
    then false
    else if length deny.target_tags + length deny.target_service_accounts + length deny_secure_tags
        == 0
    then true
    else string_set_covers deny.target_tags allow.target_tags
      && string_set_covers deny.target_service_accounts allow.target_service_accounts
      && string_set_covers deny_secure_tags allow_secure_tags

unfoldable pub any_protocol_covers :
    RuleOps → List FirewallProtocolFact → FirewallProtocolFact → Bool
any_protocol_covers ops [] allow = false
any_protocol_covers ops (deny ∷ rest) allow =
    if ops.equal_fold deny.protocol "all"
      || (ops.equal_fold deny.protocol allow.protocol && port_ranges_cover deny.ports allow.ports)
    then true
    else any_protocol_covers ops rest allow

unfoldable pub all_protocols_covered :
    RuleOps → List FirewallProtocolFact → List FirewallProtocolFact → Bool
unfolding any_protocol_covers
all_protocols_covered ops denied [] = true
all_protocols_covered ops denied (allow ∷ rest) =
    if any_protocol_covers ops denied allow then all_protocols_covered ops denied rest else false

unfoldable pub firewall_protocols_cover :
    RuleOps → List FirewallProtocolFact → List FirewallProtocolFact → Bool
unfolding all_protocols_covered
firewall_protocols_cover ops denied allowed =
    if length denied == 0 || length allowed == 0
    then false
    else all_protocols_covered ops denied allowed

-- The tests of one deny in fullyShadowingDeny.
unfoldable pub is_shadowing : RuleOps → FirewallSecurityFact → FirewallSecurityFact → Bool
is_shadowing ops allow deny =
    if deny.disabled
      || not (deny.network == allow.network)
      || not (deny.region == allow.region)
      || not (ops.to_upper deny.direction == "INGRESS")
    then false
    else if le_ℤ allow.effective_order deny.effective_order
        || (not (ops.to_lower deny.action == "deny") && length deny.denied == 0)
    then false
    else if not (allows_world ops deny)
        || not (firewall_targets_cover ops deny allow)
        || not (firewall_protocols_cover ops deny.denied allow.allowed)
    then false
    else true

unfoldable pub fully_shadowing_deny :
    RuleOps → FirewallSecurityFact → List FirewallSecurityFact → Option FirewallSecurityFact
fully_shadowing_deny ops allow [] = none
fully_shadowing_deny ops allow (deny ∷ rest) =
    if is_shadowing ops allow deny then some deny else fully_shadowing_deny ops allow rest
