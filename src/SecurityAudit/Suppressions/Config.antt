-- ===== src/SecurityAudit/Suppressions/Config.antt =====
-- `Config` and `ValidateConfig` of internal/securityaudit/engine.go. An error is its text, with the
-- text of the wrapped error of a date behind it; none is the nil error.
pub mod Valid
use Prim.Native.String.{String}
use aura_tracker_gcp.Prelude.{
  ℕ, ◌+◌, Bool, true, false, not, ◌&&◌, ◌||◌, Option, none, some, List, [], ◌∷◌, ◌==◌, string_eq,
  if◌then◌else◌,
}
use aura_tracker_gcp.GoText.{le_ℤ}
use aura_tracker_gcp.Message.{ℤ, pos, Message, text, decimal, plain}
use aura_tracker_gcp.SecurityAudit.Suppressions.{Suppression, LibraryOps, parse_suppression_expiry}

pub record Config : Type 0 where
  pub suppressions : List Suppression
  pub kubernetes_access : String
  pub fleet_project_id : String
  pub cluster_concurrency : ℤ
  pub per_cluster_timeout_seconds : ℤ
  pub max_resources_per_kind : ℤ

unfoldable pub is_access : String → Bool
is_access mode =
    mode == ""
    || mode == "auto"
    || mode == "direct"
    || mode == "connect_gateway"
    || mode == "disabled"

abbrev pub is_negative : ℤ → Bool
is_negative n = not (le_ℤ (pos 0) n)

abbrev pub complaint : ℕ → String → Option Message
complaint i what = some (text "security_audit.suppressions[" ∷ decimal (pos i) ∷ text what ∷ [])

module _ (library : LibraryOps) where
  -- The body of the loop, for the suppression at index i.
  unfoldable pub validate_suppression : ℕ → Suppression → Option Message
  validate_suppression i suppression =
      if library.trim_space suppression.rule_id == ""
      then complaint i "].rule_id is required"
      else if library.trim_space suppression.resource == ""
      then complaint i "].resource is required"
      else if library.trim_space suppression.reason == ""
      then complaint i "].reason is required"
      else elim (parse_suppression_expiry library suppression.expires_at) [
        | none ↦ complaint i "].expires_at: must be an RFC3339 timestamp or YYYY-MM-DD date"
        | some expires ↦ none
      ]

  abbrev pub or_else : Option Message → Option Message → Option Message
  or_else (some err) later = some err
  or_else none later = later

  unfoldable pub validate_suppressions : ℕ → List Suppression → Option Message
  unfolding validate_suppression
  validate_suppressions i [] = none
  validate_suppressions i (suppression ∷ rest) =
      or_else (validate_suppression i suppression) (validate_suppressions (i + 1) rest)

  unfoldable pub validate_config : Config → Option Message
  unfolding is_access validate_suppressions
  validate_config cfg =
      if not (is_access cfg.kubernetes_access)
      then some (
          plain
            "security_audit.kubernetes_access must be auto, direct, connect_gateway, or disabled")
      else if is_negative cfg.cluster_concurrency
          || is_negative cfg.per_cluster_timeout_seconds
          || is_negative cfg.max_resources_per_kind
      then some (plain "security_audit Kubernetes limits must not be negative")
      else validate_suppressions 0 cfg.suppressions
