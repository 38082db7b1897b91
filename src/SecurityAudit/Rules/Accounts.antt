-- ===== src/SecurityAudit/Rules/Accounts.antt =====
-- `evaluateServiceAccounts` and `evaluateSecrets` of internal/securityaudit/rules.go.
use Prim.Native.String.{String, ◌++◌ as append}
use aura_tracker_gcp.Prelude.{
  ℕ, ◌+◌, Bool, false, not, ◌&&◌, ◌||◌, Option, none, some, List, [], ◌∷◌, ◌++◌, ◌==◌, string_eq,
  nat_eq, if◌then◌else◌, ltb, length, flat_map,
}
use aura_tracker_gcp.GoMap.{GoMap, lookup, insert}
use aura_tracker_gcp.GoText.{has_prefix, le_ℤ}
use aura_tracker_gcp.Message.{ℤ, pos, sub_ℕ, Message, text, decimal, plain}
use aura_tracker_gcp.SecurityAudit.Facts.{
  SecurityIamBindingFact, SecurityIamPolicyFact, SecurityIamPolicyFacts, ServiceAccountKeyFact,
  ServiceAccountSecurityFact, ServiceAccountSecurityFacts, SecretVersionSecurityFact,
  SecretSecurityFact, SecretSecurityFacts,
}
use aura_tracker_gcp.SecurityAudit.Report.{SecurityFinding}
use aura_tracker_gcp.SecurityAudit.Rules.Finding.{RuleOps, new_finding}
use aura_tracker_gcp.SecurityAudit.Rules.Roles.{
  is_secret_access_role, is_privileged_role, public_roles_for_resource,
}

abbrev pub sa_001 : RuleOps → String → List Message → SecurityFinding
sa_001 ops resource evidence =
    new_finding ops "SA-001" "critical" "service_accounts" "Exposed service-account key is active"
      resource
      "An exposed private key can authenticate as the service account until the key is disabled."
      "Disable the key immediately, rotate dependent workloads, and investigate its use."
      "https://cloud.google.com/iam/docs/best-practices-for-managing-service-account-keys" evidence

abbrev pub sa_002 : RuleOps → String → List Message → SecurityFinding
sa_002 ops resource evidence =
    new_finding ops "SA-002" "high" "service_accounts"
      "Previously exposed service-account key remains" resource
      "The key has a permanent exposure indicator and should not be trusted again."
      "Delete the disabled key after verifying that workloads no longer require it."
      "https://cloud.google.com/iam/docs/best-practices-for-managing-service-account-keys" evidence

abbrev pub sa_003 : RuleOps → String → List Message → SecurityFinding
sa_003 ops resource evidence =
    new_finding ops "SA-003" "high" "service_accounts" "Active user-managed service-account key"
      resource
      "Long-lived private keys can leak and authenticate without an interactive identity challenge."
      "Migrate to an attached identity or Workload Identity Federation, then disable and delete the key."
      "https://cloud.google.com/iam/docs/best-practices-for-managing-service-account-keys" evidence

abbrev pub sa_004 : RuleOps → String → List Message → SecurityFinding
sa_004 ops resource evidence =
    new_finding ops "SA-004" "low" "service_accounts" "Disabled service-account key is retained"
      resource
      "Retaining obsolete key metadata increases operational clutter and can delay credential cleanup."
      "Delete the key after confirming it is no longer required."
      "https://cloud.google.com/iam/docs/best-practices-for-managing-service-account-keys" evidence

abbrev pub sa_005 : RuleOps → String → List Message → SecurityFinding
sa_005 ops resource evidence =
    new_finding ops "SA-005" "low" "service_accounts"
      "Disabled service account retains IAM bindings" resource
      "Stale access grants make IAM reviews harder and could become active if the account is re-enabled."
      "Review and remove bindings that are no longer required."
      "https://cloud.google.com/iam/docs/best-practices-for-managing-service-account-keys" evidence

abbrev pub sec_001 : RuleOps → String → String → List Message → SecurityFinding
sec_001 ops severity resource evidence =
    new_finding ops "SEC-001" severity "secret_manager"
      "Secret Manager secret is publicly accessible" resource
      "A public principal can use permissions granted directly on this secret."
      "Remove allUsers and allAuthenticatedUsers bindings from the secret."
      "https://cloud.google.com/secret-manager/docs/rotation-recommendations" evidence

abbrev pub sec_002 : RuleOps → String → List Message → SecurityFinding
sec_002 ops resource evidence =
    new_finding ops "SEC-002" "medium" "secret_manager" "Secret has no enabled version" resource
      "Consumers cannot retrieve a current value and might fall back to unsafe configuration handling."
      "Create or enable the intended version and remove obsolete versions after validation."
      "https://cloud.google.com/secret-manager/docs/rotation-recommendations" evidence

abbrev pub sec_003 : RuleOps → String → List Message → SecurityFinding
sec_003 ops resource evidence =
    new_finding ops "SEC-003" "high" "secret_manager" "Secret rotation is overdue" resource
      "The configured rotation deadline passed without advancing the schedule."
      "Rotate the backing credential, add a new version, and repair the rotation workflow."
      "https://cloud.google.com/secret-manager/docs/rotation-recommendations" evidence

abbrev pub sec_004 : RuleOps → String → List Message → SecurityFinding
sec_004 ops resource evidence =
    new_finding ops "SEC-004" "medium" "secret_manager" "Referenced secret has no rotation schedule"
      resource
      "Long-lived application credentials increase the impact window of accidental disclosure."
      "Define a rotation workflow and notification schedule appropriate for the credential."
      "https://cloud.google.com/secret-manager/docs/rotation-recommendations" evidence

abbrev or_zero : Option ℕ → ℕ
or_zero none = 0
or_zero (some n) = n

abbrev count_member : List String → GoMap String ℕ → GoMap String ℕ
count_member [] out = out
count_member (member ∷ rest) out = count_member rest (
    if has_prefix member "serviceAccount:"
    then insert member (or_zero (lookup member out) + 1) out
    else out)

abbrev count_bindings : List SecurityIamBindingFact → GoMap String ℕ → GoMap String ℕ
count_bindings [] out = out
count_bindings (binding ∷ rest) out = count_bindings rest (count_member binding.members out)

abbrev count_policies : List SecurityIamPolicyFact → GoMap String ℕ → GoMap String ℕ
count_policies [] out = out
count_policies (policy ∷ rest) out = count_policies rest (count_bindings policy.bindings out)

unfoldable pub service_account_binding_count : SecurityIamPolicyFacts → GoMap String ℕ
service_account_binding_count facts = count_policies facts.policies []

-- none where the code returns -1 for a time that it cannot read
unfoldable pub key_age_days : RuleOps → ServiceAccountKeyFact → ℕ → Option ℤ
key_age_days ops key now = elim (ops.parse_time key.valid_after_time) [
  | none ↦ none
  | some created ↦ some (ops.whole_days (sub_ℕ now created))
]

abbrev age_evidence : Option ℤ → Message
age_evidence none = plain "active user-managed key"
age_evidence (some age) =
    if le_ℤ (pos 0) age
    then text "active user-managed key is " ∷ decimal age ∷ text " days old" ∷ []
    else plain "active user-managed key"

unfoldable pub key_finding : RuleOps → ℕ → ServiceAccountKeyFact → SecurityFinding
unfolding key_age_days
key_finding ops now key =
    let resource = append "//iam.googleapis.com/" key.name in
    if key.exposed && not key.disabled
    then sa_001 ops resource
        (plain "Google key metadata marks this key as exposed or compromised" ∷ [])
    else if key.exposed
    then sa_002 ops resource
        (plain "Google key metadata marks this disabled key as exposed or compromised" ∷ [])
    else if not key.disabled
    then sa_003 ops resource (age_evidence (key_age_days ops key now) ∷ [])
    else sa_004 ops resource (plain "user-managed key is disabled" ∷ [])

abbrev pub key_findings : RuleOps → ℕ → List ServiceAccountKeyFact → List SecurityFinding
key_findings ops now [] = []
key_findings ops now (key ∷ rest) = key_finding ops now key ∷ key_findings ops now rest

unfoldable pub account_findings :
    RuleOps → ℕ → GoMap String ℕ → ServiceAccountSecurityFact → List SecurityFinding
account_findings ops now bindings account =
    let count = or_zero (lookup (append "serviceAccount:" account.email) bindings) in
    key_findings ops now account.keys
    ++ (if account.disabled && ltb 0 count
        then sa_005 ops (append "//iam.googleapis.com/" account.name) (
            (text "disabled account appears in " ∷ decimal (pos count) ∷ text " IAM bindings" ∷ [])
            ∷ [])
          ∷ []
        else [])

unfoldable pub evaluate_service_accounts :
    RuleOps → ServiceAccountSecurityFacts → SecurityIamPolicyFacts → ℕ → List SecurityFinding
evaluate_service_accounts ops facts iam_facts now =
    flat_map (account_findings ops now (service_account_binding_count iam_facts))
      facts.service_accounts

abbrev later : Option ℕ → ℕ → Option ℕ
later none created = some created
later (some latest) created = if ltb latest created then some created else some latest

abbrev created_after : Option ℕ → Option ℕ → Option ℕ
created_after latest none = latest
created_after latest (some created) = later latest created

-- The loop over the versions: how many are enabled, and the latest creation of one.
unfoldable pub enabled_versions :
    RuleOps → ℕ → Option ℕ → List SecretVersionSecurityFact → ℕ × Option ℕ
enabled_versions ops enabled latest [] = (enabled, latest)
enabled_versions ops enabled latest (version ∷ rest) =
    enabled_versions ops (if version.state == "ENABLED" then enabled + 1 else enabled)
      (if version.state == "ENABLED"
        then created_after latest (ops.parse_time version.create_time)
        else latest)
      rest

abbrev pub public_secret : RuleOps → String → List String → List SecurityFinding
public_secret ops resource [] = []
public_secret ops resource (role ∷ rest) =
    sec_001 ops
      (if is_secret_access_role role || is_privileged_role role then "critical" else "high")
      resource (plain (append "public principal has " role) ∷ [])
    ∷ public_secret ops resource rest

abbrev is_overdue : ℕ → Option ℕ → Bool
is_overdue now none = false
is_overdue now (some next) = ltb next now

abbrev latest_note : RuleOps → ℕ → Option ℕ → Message
latest_note ops now none = []
latest_note ops now (some latest) =
    text "; latest enabled version is "
    ∷ decimal (ops.whole_days (sub_ℕ now latest))
    ∷ text " days old"
    ∷ []

unfoldable pub secret_findings :
    RuleOps → SecurityIamPolicyFacts → ℕ → SecretSecurityFact → List SecurityFinding
unfolding enabled_versions
secret_findings ops iam_facts now secret =
    let (enabled, latest) = enabled_versions ops 0 none secret.versions in
    public_secret ops secret.resource_name
      (public_roles_for_resource iam_facts secret.resource_name)
    ++ (if enabled == 0
        then sec_002 ops secret.resource_name (
            (decimal (pos (length secret.versions)) ∷ text " versions inspected; none enabled" ∷ [])
            ∷ [])
          ∷ []
        else [])
    ++ (if not (secret.next_rotation_time == "")
          && is_overdue now (ops.parse_time secret.next_rotation_time)
        then sec_003 ops secret.resource_name
            (plain (append "next rotation time was " secret.next_rotation_time) ∷ [])
          ∷ []
        else [])
    ++ (if ltb 0 (length secret.referenced_by)
          && secret.rotation_period == ""
          && secret.next_rotation_time == ""
        then sec_004 ops secret.resource_name (
            (text "referenced by "
              ∷ decimal (pos (length secret.referenced_by))
              ∷ text " Cloud Run services; no rotation schedule"
              ∷ latest_note ops now latest)
            ∷ [])
          ∷ []
        else [])

unfoldable pub evaluate_secrets :
    RuleOps → SecretSecurityFacts → SecurityIamPolicyFacts → ℕ → List SecurityFinding
evaluate_secrets ops facts iam_facts now =
    flat_map (secret_findings ops iam_facts now) facts.secrets
