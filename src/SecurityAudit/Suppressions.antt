-- ===== src/SecurityAudit/Suppressions.antt =====
-- internal/securityaudit/suppressions.go: accepted risks with an end. Go's `strings`, `time.Parse`
-- under a layout, the RFC 3339 form of a time and `regexp` are parameters.
pub mod Split
pub mod Config
use Prim.Native.String.{◌++◌ as append}
use aura_tracker_gcp.Prelude.{
  ℕ, String, Bool, true, false, not, ◌||◌, Option, none, some, List, [], ◌∷◌, ltb, if◌then◌else◌,
}
use aura_tracker_gcp.SecurityAudit.Report.{SecurityFinding, SecuritySuppressedFinding}

pub record Suppression : Type 0 where
  pub rule_id : String
  pub resource : String
  pub reason : String
  pub owner : String
  pub expires_at : String

pub record LibraryOps : Type 0 where
  pub trim_space : String → String
  pub equal_fold : String → String → Bool
  -- strings.ReplaceAll of a text, the old part and the new one
  pub replace_all : String → String → String → String
  pub quote_meta : String → String
  -- regexp.MatchString of a pattern and a text, none for an error
  pub match_string : String → String → Option Bool
  -- time.Parse of a layout and a text, in nanoseconds
  pub parse_time : String → String → Option ℕ
  pub rfc3339 : ℕ → String

module _ (library : LibraryOps) where
  open library use {
    trim_space, equal_fold, replace_all, quote_meta, match_string, parse_time, rfc3339,
  }

  abbrev first_parsed : List String → String → Option ℕ
  first_parsed [] value = none
  first_parsed (layout ∷ layouts) value = elim (parse_time layout value) [
    | some parsed ↦ some parsed
    | none ↦ first_parsed layouts value
  ]

  unfoldable pub parse_suppression_expiry : String → Option ℕ
  parse_suppression_expiry value =
      first_parsed ("2006-01-02T15:04:05Z07:00" ∷ "2006-01-02" ∷ []) (trim_space value)

  unfoldable pub wildcard_match : String → String → Bool
  wildcard_match pattern value =
      let quoted = replace_all (replace_all (quote_meta pattern) "\\*" ".*") "\\?" "." in
      elim (match_string (append "^" (append quoted "$")) value) [
        | none ↦ false
        | some matched ↦ matched
      ]

  abbrev pub suppressed_finding : SecurityFinding → Suppression → ℕ → SecuritySuppressedFinding
  suppressed_finding finding suppression expires = record {
    finding_id = finding.id;
    rule_id = finding.rule_id;
    resource = finding.resource;
    reason = suppression.reason;
    owner = suppression.owner;
    expires_at = rfc3339 expires;
  }

  -- The inner loop: the first suppression that matches, if one does.
  unfoldable pub first_match :
      ℕ → SecurityFinding → List Suppression → Option SecuritySuppressedFinding
  first_match now finding [] = none
  first_match now finding (suppression ∷ rest) =
      let later = first_match now finding rest in
      elim (parse_suppression_expiry suppression.expires_at) [
        | none ↦ later
        | some expires ↦
            if not (ltb now expires)
              || not (equal_fold (trim_space suppression.rule_id) finding.rule_id)
            then later
            else if not (wildcard_match (trim_space suppression.resource) finding.resource)
            then later
            else some (suppressed_finding finding suppression expires)
      ]

  unfoldable pub apply_suppressions :
      List SecurityFinding
      → List Suppression
      → ℕ
      → List SecurityFinding × List SecuritySuppressedFinding
  apply_suppressions [] suppressions now = ([], [])
  apply_suppressions (finding ∷ findings) suppressions now =
      let (active, suppressed) = apply_suppressions findings suppressions now in
      elim (first_match now finding suppressions) [
        | none ↦ (finding ∷ active, suppressed)
        | some entry ↦ (active, entry ∷ suppressed)
      ]
