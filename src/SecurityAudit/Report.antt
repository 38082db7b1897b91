-- ===== src/SecurityAudit/Report.antt =====
-- pkg/models/security.go: findings and the report of an audit. The Go strings of a severity, a category
-- and a status are kept as strings; a pointer is an `Option`.
use aura_tracker_gcp.Prelude.{ℕ, String, Bool, Option, List}
use aura_tracker_gcp.Message.{Message}
use aura_tracker_gcp.SecurityAudit.Facts.{SecurityCoverageUnit}

pub record SecurityFinding : Type 0 where
  pub id : String
  pub rule_id : String
  pub severity : String
  pub category : String
  pub title : String
  pub resource : String
  pub region : String
  pub evidence : List Message
  pub risk : String
  pub recommendation : String
  pub source : String
  pub confidence : String
  pub docs_url : String

pub record SecurityRecommendation : Type 0 where
  pub priority : ℕ
  pub severity : String
  pub title : String
  pub action : String
  pub affected_count : ℕ
  pub finding_ids : List String

pub record SecuritySuppressedFinding : Type 0 where
  pub finding_id : String
  pub rule_id : String
  pub resource : String
  pub reason : String
  pub owner : String
  pub expires_at : String

pub record SecurityCoverageCheck : Type 0 where
  pub category : String
  pub status : String
  pub weight : ℕ
  pub items_scanned : ℕ
  pub message : String
  pub completed_units : ℕ
  pub total_units : ℕ
  pub units : List SecurityCoverageUnit

pub record SecurityCategoryScore : Type 0 where
  pub category : String
  pub weight : ℕ
  pub score : ℕ
  pub findings : ℕ
  pub coverage_status : String

pub record SecuritySeverityCounts : Type 0 where
  pub critical : ℕ
  pub high : ℕ
  pub medium : ℕ
  pub low : ℕ

pub record SecurityAuditReport : Type 0 where
  pub audit_id : String
  pub project_id : String
  pub generated_at : String
  pub rule_version : String
  pub score : Option ℕ
  pub score_status : String
  pub coverage_percent : ℕ
  pub counts : SecuritySeverityCounts
  pub category_scores : List SecurityCategoryScore
  pub findings : List SecurityFinding
  pub recommendations : List SecurityRecommendation
  pub suppressed : List SecuritySuppressedFinding
  pub coverage : List SecurityCoverageCheck
  pub truncated : Bool
  pub summary_markdown : String
