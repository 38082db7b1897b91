-- ===== src/SecurityAudit/Facts.antt =====
-- pkg/models/security.go: the facts on IAM, service accounts and secrets that an audit collects. The Go strings of a severity, a category
-- and a status are kept as strings; a pointer is an `Option`.
use aura_tracker_gcp.Prelude.{ℕ, String, Bool, Option, List}

pub record SecurityCoverageUnit : Type 0 where
  pub collector : String
  pub scope_type : String
  pub scope : String
  pub status : String
  pub items_scanned : ℕ
  pub message : String

pub record SecurityHierarchyNode : Type 0 where
  pub name : String
  pub type : String
  pub display_name : String
  pub parent : String
  pub depth : ℕ

pub record SecurityHierarchyFact : Type 0 where
  pub project_id : String
  pub project_number : String
  pub organization : String
  pub nodes : List SecurityHierarchyNode

pub record SecurityIamCondition : Type 0 where
  pub title : String
  pub description : String
  pub expression : String

pub record SecurityIamBindingFact : Type 0 where
  pub role : String
  pub members : List String
  pub condition : Option SecurityIamCondition

pub record SecurityIamPolicyFact : Type 0 where
  pub resource : String
  pub asset_type : String
  pub origin_scope : String
  pub scope_type : String
  pub policy_kind : String
  pub inherited : Bool
  pub bindings : List SecurityIamBindingFact

pub record SecurityIamDenyRuleFact : Type 0 where
  pub policy_name : String
  pub origin_scope : String
  pub scope_type : String
  pub inherited : Bool
  pub description : String
  pub denied_principals : List String
  pub exception_principals : List String
  pub denied_permissions : List String
  pub exception_permissions : List String
  pub condition : Option SecurityIamCondition

pub record SecurityIamPolicyFacts : Type 0 where
  pub hierarchy : SecurityHierarchyFact
  pub policies : List SecurityIamPolicyFact
  pub deny_rules : List SecurityIamDenyRuleFact
  pub coverage : List SecurityCoverageUnit
  pub truncated : Bool

pub record ServiceAccountKeyFact : Type 0 where
  pub name : String
  pub id : String
  pub origin : String
  pub key_type : String
  pub valid_after_time : String
  pub valid_before_time : String
  pub disabled : Bool
  pub disable_reason : String
  pub exposed : Bool

pub record ServiceAccountSecurityFact : Type 0 where
  pub name : String
  pub email : String
  pub display_name : String
  pub description : String
  pub disabled : Bool
  pub keys : List ServiceAccountKeyFact

pub record ServiceAccountSecurityFacts : Type 0 where
  pub service_accounts : List ServiceAccountSecurityFact

pub record SecretVersionSecurityFact : Type 0 where
  pub name : String
  pub create_time : String
  pub state : String

pub record SecretSecurityFact : Type 0 where
  pub name : String
  pub resource_name : String
  pub create_time : String
  pub replication : String
  pub rotation_period : String
  pub next_rotation_time : String
  pub expire_time : String
  pub topic_count : ℕ
  pub versions : List SecretVersionSecurityFact
  pub referenced_by : List String

pub record SecretSecurityFacts : Type 0 where
  pub secrets : List SecretSecurityFact
  pub warnings : List String
