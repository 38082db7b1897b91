-- ===== src/SecurityAudit/Rules/Roles.antt =====
-- The tests on members, roles and resources of internal/securityaudit/rules.go, and what it gathers
-- from the IAM policies.
pub mod Contains
use Prim.Native.String.{String, ◌++◌ as append}
use aura_tracker_gcp.Prelude.{
  ℕ, ◌+◌, Bool, true, false, not, ◌&&◌, ◌||◌, Option, none, some, List, [], ◌∷◌, ◌++◌, ◌==◌,
  string_eq, if◌then◌else◌,
}
use aura_tracker_gcp.GoMap.{GoMap, lookup, insert}
use aura_tracker_gcp.GoText.{has_prefix, has_suffix, contains_text, trim_prefix, cut, every_digit}
use aura_tracker_gcp.GoSort.{sort_strings}
use aura_tracker_gcp.SecurityAudit.Facts.{
  SecurityIamBindingFact, SecurityIamPolicyFact, SecurityIamPolicyFacts, SecurityIamDenyRuleFact,
}

unfoldable pub is_public_member : String → Bool
is_public_member member = member == "allUsers" || member == "allAuthenticatedUsers"

unfoldable pub is_public_invocation_role : String → Bool
is_public_invocation_role role =
    role == "roles/run.invoker" || role == "roles/cloudfunctions.invoker"

unfoldable pub is_secret_access_role : String → Bool
is_secret_access_role role =
    role == "roles/secretmanager.secretAccessor" || role == "roles/secretmanager.admin"

unfoldable pub is_privileged_role : String → Bool
is_privileged_role role =
    if role == "roles/owner"
      || role == "roles/editor"
      || role == "roles/iam.securityAdmin"
      || role == "roles/resourcemanager.projectIamAdmin"
    then true
    else has_suffix role ".admin" || has_suffix role "Admin"

unfoldable pub all_decimal : String → Bool
all_decimal value = if value == "" then false else every_digit value

abbrev managed_address : Option (String × String) → Bool
managed_address none = false
managed_address (some (local, domain)) =
    if local == "" || domain == "" || contains_text domain "@"
    then false
    else if domain == "cloudservices.gserviceaccount.com"
    then all_decimal local
    else has_prefix local "service-"
      && all_decimal (trim_prefix local "service-")
      && has_suffix domain ".iam.gserviceaccount.com"

unfoldable pub is_google_managed_service_agent : String → Bool
is_google_managed_service_agent member =
    if not (has_prefix member "serviceAccount:")
    then false
    else managed_address (cut (trim_prefix member "serviceAccount:") "@")

unfoldable pub is_default_service_account : String → Bool
is_default_service_account member =
    contains_text member "-compute@developer.gserviceaccount.com"
    || contains_text member "@appspot.gserviceaccount.com"

unfoldable pub is_project_resource : String → Bool
is_project_resource resource =
    contains_text resource "cloudresourcemanager.googleapis.com/projects/"
    && not
        (contains_text (trim_prefix resource "//cloudresourcemanager.googleapis.com/projects/") "/")

-- contains(values, wanted)
unfoldable pub contains : List String → String → Bool
contains [] wanted = false
contains (value ∷ rest) wanted = if value == wanted then true else contains rest wanted

-- The map `seen` holds the values of the list.
unfoldable pub append_unique_roles : List String → List String → List String
unfolding contains
append_unique_roles values [] = values
append_unique_roles values (value ∷ rest) =
    append_unique_roles
      (if value == "" || contains values value || value == "roles/iam.workloadIdentityUser"
        then values
        else values ++ value ∷ [])
      rest

unfoldable pub is_inherited_resource_policy : SecurityIamPolicyFact → Bool
is_inherited_resource_policy policy =
    if not (policy.policy_kind == "") && not (policy.policy_kind == "allow")
    then false
    else if policy.scope_type == "project"
        || policy.scope_type == "folder"
        || policy.scope_type == "organization"
    then contains_text policy.resource "cloudresourcemanager.googleapis.com/"
    else false

-- The loop over the members of a binding, the bindings of a policy, the policies.
abbrev add_public : String → List String → List String → List String
add_public role [] roles = roles
add_public role (member ∷ rest) roles =
    add_public role rest
      (if is_public_member member then append_unique_roles roles (role ∷ []) else roles)

abbrev add_public_bindings : List SecurityIamBindingFact → List String → List String
add_public_bindings [] roles = roles
add_public_bindings (binding ∷ rest) roles =
    add_public_bindings rest (add_public binding.role binding.members roles)

abbrev add_public_policies : String → List SecurityIamPolicyFact → List String → List String
add_public_policies resource [] roles = roles
add_public_policies resource (policy ∷ rest) roles = add_public_policies resource rest (
    if not (policy.resource == resource) && not (is_inherited_resource_policy policy)
    then roles
    else add_public_bindings policy.bindings roles)

unfoldable pub public_roles_for_resource : SecurityIamPolicyFacts → String → List String
public_roles_for_resource facts resource =
    sort_strings (add_public_policies resource facts.policies [])

abbrev pub or_empty : Option (List String) → List String
or_empty none = []
or_empty (some roles) = roles

-- m[k] of a map to lists
abbrev pub roles_of : String → GoMap String (List String) → List String
roles_of member roles = or_empty (lookup member roles)

abbrev pub grant : String → List String → GoMap String (List String) → GoMap String (List String)
grant role [] out = out
grant role (member ∷ rest) out =
    grant role rest (insert member (roles_of member out ++ role ∷ []) out)

abbrev pub grant_bindings :
    List SecurityIamBindingFact → GoMap String (List String) → GoMap String (List String)
grant_bindings [] out = out
grant_bindings (binding ∷ rest) out = grant_bindings rest (grant binding.role binding.members out)

abbrev pub grant_policies :
    List SecurityIamPolicyFact → GoMap String (List String) → GoMap String (List String)
grant_policies [] out = out
grant_policies (policy ∷ rest) out = grant_policies rest (grant_bindings policy.bindings out)

unfoldable pub roles_by_member : SecurityIamPolicyFacts → GoMap String (List String)
roles_by_member facts = grant_policies facts.policies []

abbrev has_privileged : List String → Bool
has_privileged [] = false
has_privileged (role ∷ rest) = if is_privileged_role role then true else has_privileged rest

unfoldable pub member_has_privileged_role : GoMap String (List String) → String → Bool
member_has_privileged_role roles member = has_privileged (roles_of member roles)

abbrev add_privileged : List String → List String → List String
add_privileged out [] = out
add_privileged out (role ∷ rest) =
    add_privileged (if is_privileged_role role then append_unique_roles out (role ∷ []) else out)
      rest

unfoldable pub privileged_roles : List String → List String
privileged_roles roles = sort_strings (add_privileged [] roles)

unfoldable pub deny_principal_matches : String → String → Bool
deny_principal_matches principal member =
    if principal == member
    then true
    else if principal == "principalSet://goog/public:all"
    then true
    else if member == "allUsers" || member == "allAuthenticatedUsers"
    then false
    else if has_prefix member "user:"
    then principal == append "principal://goog/subject/" (trim_prefix member "user:")
    else if has_prefix member "group:"
    then principal == append "principalSet://goog/group/" (trim_prefix member "group:")
    else if has_prefix member "serviceAccount:"
    then principal
      == append "principal://iam.googleapis.com/projects/-/serviceAccounts/"
          (trim_prefix member "serviceAccount:")
    else if has_prefix member "principal://" || has_prefix member "principalSet://"
    then principal == member
    else false

unfoldable pub deny_principal_excepted : List String → String → Bool
unfolding deny_principal_matches
deny_principal_excepted [] member = false
deny_principal_excepted (exception ∷ rest) member =
    if deny_principal_matches exception member then true else deny_principal_excepted rest member

-- The inner loop of matchingDenyRuleCount, up to its break.
unfoldable pub deny_rule_matches : List String → List String → String → Bool
deny_rule_matches exceptions [] member = false
deny_rule_matches exceptions (principal ∷ rest) member =
    if deny_principal_matches principal member && not (deny_principal_excepted exceptions member)
    then true
    else deny_rule_matches exceptions rest member

unfoldable pub matching_deny_rule_count : List SecurityIamDenyRuleFact → String → ℕ
unfolding deny_rule_matches
matching_deny_rule_count [] member = 0
matching_deny_rule_count (rule ∷ rest) member =
    let count = matching_deny_rule_count rest member in
    if deny_rule_matches rule.exception_principals rule.denied_principals member
    then 1 + count
    else count
