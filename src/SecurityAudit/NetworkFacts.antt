-- ===== src/SecurityAudit/NetworkFacts.antt =====
-- pkg/models/security.go: the facts on public services, firewalls and workload identity, and those of
-- Cloud Recommender. The Go strings of a severity, a category and a status are kept as strings; a
-- pointer is an `Option`.
use aura_tracker_gcp.Prelude.{String, Bool, Option, List}
use aura_tracker_gcp.GoMap.{GoMap}
use aura_tracker_gcp.Message.{ℤ}
use aura_tracker_gcp.SecurityAudit.Facts.{SecurityCoverageUnit}

pub record PublicServiceSecurityFact : Type 0 where
  pub resource_name : String
  pub name : String
  pub kind : String
  pub region : String
  pub ingress : String
  pub invoker_iam_disabled : Bool
  pub iap_enabled : Bool
  pub default_uri_disabled : Bool
  pub service_account : String
  pub secret_references : List String
  pub external : Bool
  pub tls_enabled : Bool
  pub plaintext_enabled : Bool
  pub cluster_name : String
  pub namespace : String
  pub addresses : List String
  pub hosts : List String
  pub ports : List ℤ
  pub source_ranges : List String
  pub backend_services : List String
  pub workload_identities : List String
  pub exposure_reason : String

pub record PublicServiceSecurityFacts : Type 0 where
  pub services : List PublicServiceSecurityFact
  pub coverage : List SecurityCoverageUnit
  pub warnings : List String

pub record FirewallProtocolFact : Type 0 where
  pub protocol : String
  pub ports : List String

pub record FirewallSecurityFact : Type 0 where
  pub name : String
  pub resource_name : String
  pub network : String
  pub direction : String
  pub priority : ℤ
  pub source_ranges : List String
  pub destination_ranges : List String
  pub source_tags : List String
  pub target_tags : List String
  pub source_service_accounts : List String
  pub target_service_accounts : List String
  pub allowed : List FirewallProtocolFact
  pub denied : List FirewallProtocolFact
  pub logging_enabled : Bool
  pub disabled : Bool
  pub layer : String
  pub policy_name : String
  pub policy_type : String
  pub action : String
  pub region : String
  pub association_priority : ℤ
  pub effective_order : ℤ
  pub target_secure_tags : List String
  pub source_secure_tags : List String
  pub source_address_groups : List String
  pub source_fqdns : List String
  pub source_networks : List String
  pub source_region_codes : List String
  pub source_threat_intelligence : List String
  pub source_network_context : String
  pub source_network_type : String

pub record FirewallSecurityFacts : Type 0 where
  pub firewalls : List FirewallSecurityFact
  pub coverage : List SecurityCoverageUnit

pub record NodePoolIdentityFact : Type 0 where
  pub name : String
  pub service_account : String
  pub metadata_mode : String

pub record KubernetesServiceAccountFact : Type 0 where
  pub namespace : String
  pub name : String
  pub google_service_account : String
  pub automount_service_account_token : Option Bool
  pub workloads : List String
  pub direct_roles : List String
  pub namespace_roles : List String
  pub mapped_gsa_roles : List String
  pub impersonation_verified : Bool

pub record KubernetesWorkloadIdentityFact : Type 0 where
  pub namespace : String
  pub name : String
  pub kind : String
  pub service_account : String
  pub automount_service_account_token : Option Bool
  pub labels : GoMap String String

pub record WorkloadIdentitySecurityFact : Type 0 where
  pub resource_name : String
  pub cluster_name : String
  pub location : String
  pub workload_pool : String
  pub private_nodes : Bool
  pub node_pools : List NodePoolIdentityFact
  pub access_mode : String
  pub service_accounts : List KubernetesServiceAccountFact
  pub workloads : List KubernetesWorkloadIdentityFact

pub record WorkloadIdentitySecurityFacts : Type 0 where
  pub clusters : List WorkloadIdentitySecurityFact
  pub coverage : List SecurityCoverageUnit
  pub warnings : List String

pub record SecurityRecommendationFact : Type 0 where
  pub name : String
  pub recommender_id : String
  pub subtype : String
  pub description : String
  pub priority : String
  pub last_refresh_time : String
  pub target_resources : List String

pub record SecurityRecommendationFacts : Type 0 where
  pub recommendations : List SecurityRecommendationFact
  pub enabled : Bool
  pub truncated : Bool
  pub warnings : List String
