-- ===== src/SecurityAudit/Rules/Finding.antt =====
-- `newFinding` and the small helpers of internal/securityaudit/rules.go. What it takes from Go's
-- library is a parameter: SHA-256, times, Unicode case and CIDR ranges. Evidence is kept as the
-- parts that it is formatted from; the empty text is the one of no part.
use Prim.Native.String.{String, ◌++◌ as append}
use aura_tracker_gcp.Prelude.{ℕ, Bool, Option, List, [], ◌∷◌, ◌++◌, ◌==◌, string_eq, if◌then◌else◌}
use aura_tracker_gcp.Message.{ℤ, Message, text}
use aura_tracker_gcp.SecurityAudit.Report.{SecurityFinding}

pub record RuleOps : Type 0 where
  -- the first three bytes of the SHA-256 of a text, in upper-case hexadecimal
  pub digest : Message → String
  -- time.Parse under RFC3339Nano, in nanoseconds
  pub parse_time : String → Option ℕ
  -- int(d.Hours() / 24) of a duration
  pub whole_days : ℤ → ℤ
  pub to_upper : String → String
  pub to_lower : String → String
  pub equal_fold : String → String → Bool
  -- the network of net.ParseCIDR, as a text
  pub parse_cidr : String → Option String

abbrev join_parts : List Message → Message
join_parts [] = []
join_parts (m ∷ []) = m
join_parts (m ∷ n ∷ rest) = m ++ text "|" ∷ join_parts (n ∷ rest)

unfoldable pub new_finding :
    RuleOps
    → (rule severity category title resource risk recommendation docs : String) → List Message
    → SecurityFinding
new_finding ops rule severity category title resource risk recommendation docs evidence = record {
  id = append rule (
      append "-"
        (ops.digest (text rule ∷ text "|" ∷ text resource ∷ text "|" ∷ join_parts evidence)));
  rule_id = rule;
  severity = severity;
  category = category;
  title = title;
  resource = resource;
  region = "";
  evidence = evidence;
  risk = risk;
  recommendation = recommendation;
  source = "aura-rule";
  confidence = "high";
  docs_url = docs;
}

unfoldable pub compact_evidence : List Message → List Message
compact_evidence [] = []
compact_evidence ([] ∷ rest) = compact_evidence rest
compact_evidence ((part ∷ parts) ∷ rest) = (part ∷ parts) ∷ compact_evidence rest

unfoldable pub empty_as : String → String → String
empty_as value fallback = if value == "" then fallback else value
