-- ===== src/SecurityAudit/Rules/Services.antt =====
-- `evaluatePublicServices` of internal/securityaudit/rules.go.
use Prim.Native.String.{String, ◌++◌ as append}
use aura_tracker_gcp.Prelude.{
  Bool, true, false, not, ◌&&◌, ◌||◌, List, [], ◌∷◌, ◌++◌, ◌==◌, string_eq, nat_eq, if◌then◌else◌,
  ltb, length, flat_map,
}
use aura_tracker_gcp.GoMap.{GoMap}
use aura_tracker_gcp.GoText.{has_prefix, join, le_ℤ}
use aura_tracker_gcp.GoSort.{slice_stable}
use aura_tracker_gcp.Message.{ℤ, pos, negsuc, Message, text, decimal, plain}
use aura_tracker_gcp.SecurityAudit.Facts.{SecurityIamPolicyFacts}
use aura_tracker_gcp.SecurityAudit.NetworkFacts.{
  PublicServiceSecurityFact, PublicServiceSecurityFacts,
}
use aura_tracker_gcp.SecurityAudit.Report.{SecurityFinding}
use aura_tracker_gcp.SecurityAudit.Rules.Finding.{RuleOps, new_finding}
use aura_tracker_gcp.SecurityAudit.Rules.Roles.{
  is_public_invocation_role, is_privileged_role, public_roles_for_resource, roles_by_member,
  member_has_privileged_role,
}

abbrev pub pub_001 : RuleOps → String → String → String → List Message → SecurityFinding
pub_001 ops severity title resource evidence =
    new_finding ops "PUB-001" severity "public_services" title resource
      "An internet-accessible endpoint increases attack surface and must be an explicit design decision."
      "Require IAM authentication or document the endpoint as intentionally public and constrain its runtime identity."
      "https://cloud.google.com/run/docs/authenticating/public" evidence

abbrev pub pub_002 : RuleOps → String → List Message → SecurityFinding
pub_002 ops resource evidence =
    new_finding ops "PUB-002" "high" "public_services"
      "Internet-facing Kubernetes endpoint has no TLS listener" resource
      "Plaintext application traffic can be observed or modified before it reaches the workload."
      "Configure HTTPS/TLS on the Ingress or Gateway and disable or redirect plaintext traffic."
      "https://cloud.google.com/run/docs/authenticating/public" evidence

abbrev pub pub_003 : RuleOps → String → List Message → SecurityFinding
pub_003 ops resource evidence =
    new_finding ops "PUB-003" "high" "public_services"
      "Kubernetes endpoint exposes a sensitive port" resource
      "Administrative and database protocols exposed directly to the internet are frequent attack targets."
      "Use a private Service or restrict source ranges to trusted networks and authenticated access paths."
      "https://cloud.google.com/run/docs/authenticating/public" evidence

abbrev first_public_role : List String → String
first_public_role [] = ""
first_public_role (role ∷ rest) =
    if is_public_invocation_role role || is_privileged_role role
    then role
    else first_public_role rest

unfoldable pub permits_external_ingress : RuleOps → PublicServiceSecurityFact → Bool
permits_external_ingress ops service =
    let ingress = ops.to_upper service.ingress in
    if service.kind == "cloud_run"
    then ingress == ""
      || ingress == "INGRESS_TRAFFIC_ALL"
      || ingress == "INGRESS_TRAFFIC_INTERNAL_LOAD_BALANCER"
    else if service.kind == "cloud_function_gen1"
    then ingress == "" || ingress == "ALLOW_ALL" || ingress == "ALLOW_INTERNAL_AND_GCLB"
    else service.external

-- The order of integers, as a test.
abbrev lt_ℤ : ℤ → ℤ → Bool
lt_ℤ a b = not (le_ℤ b a)

unfoldable pub is_sensitive_port : ℤ → Bool
is_sensitive_port (negsuc n) = false
is_sensitive_port (pos port) =
    port == 22
    || port == 23
    || port == 3389
    || port == 3306
    || port == 5432
    || port == 6379
    || port == 27017
    || port == 9200
    || port == 11211

abbrev eq_ℤ : ℤ → ℤ → Bool
eq_ℤ a b = le_ℤ a b && le_ℤ b a

abbrev has_int : List ℤ → ℤ → Bool
has_int [] value = false
has_int (existing ∷ rest) value = if eq_ℤ existing value then true else has_int rest value

unfoldable pub append_unique_int : List ℤ → ℤ → List ℤ
append_unique_int values value = if has_int values value then values else values ++ value ∷ []

abbrev add_sensitive : List ℤ → List ℤ → List ℤ
add_sensitive values [] = values
add_sensitive values (port ∷ rest) =
    add_sensitive (if is_sensitive_port port then append_unique_int values port else values) rest

unfoldable pub sensitive_service_ports : List ℤ → List ℤ
sensitive_service_ports ports = slice_stable lt_ℤ (add_sensitive [] ports)

abbrev more_ports : List ℤ → Message
more_ports [] = text "]" ∷ []
more_ports (port ∷ rest) = text " " ∷ decimal port ∷ more_ports rest

-- A list of integers under %v.
abbrev pub show_ports : List ℤ → Message
show_ports [] = text "[]" ∷ []
show_ports (port ∷ rest) = text "[" ∷ decimal port ∷ more_ports rest

abbrev note : Bool → Message → List Message
note test message = if test then message ∷ [] else []

unfoldable pub is_exposed : RuleOps → String → PublicServiceSecurityFact → Bool
is_exposed ops public_role service =
    if has_prefix service.kind "gke_"
    then service.external
    else (service.invoker_iam_disabled || not (public_role == ""))
      && permits_external_ingress ops service

abbrev runs_privileged : GoMap String (List String) → PublicServiceSecurityFact → Bool
runs_privileged roles service =
    not (service.service_account == "")
    && member_has_privileged_role roles (append "serviceAccount:" service.service_account)

abbrev accepts_http : PublicServiceSecurityFact → Bool
accepts_http service = service.kind == "cloud_function_gen1" && not service.tls_enabled

abbrev exposure_evidence :
    GoMap String (List String) → String → PublicServiceSecurityFact → List Message
exposure_evidence roles public_role service =
    note service.invoker_iam_disabled (plain "invoker IAM check is disabled")
    ++ note (not (public_role == "")) (plain (append "public principal has " public_role))
    ++ note (not (service.ingress == "")) (plain (append "ingress is " service.ingress))
    ++ note (not (service.exposure_reason == "")) (plain service.exposure_reason)
    ++ note (ltb 0 (length service.addresses))
        (plain (append "external addresses: " (join service.addresses ", ")))
    ++ note (runs_privileged roles service)
        (plain "runtime service account has a privileged project role")
    ++ note (accepts_http service) (plain "HTTP is accepted without mandatory HTTPS redirect")

unfoldable pub service_findings :
    RuleOps
    → SecurityIamPolicyFacts
    → GoMap String (List String)
    → PublicServiceSecurityFact
    → List SecurityFinding
unfolding is_exposed
service_findings ops iam_facts roles service =
    let public_role =
      first_public_role (public_roles_for_resource iam_facts service.resource_name) in
    let is_gke = has_prefix service.kind "gke_" in
    let dangerous_ports = sensitive_service_ports service.ports in
    if not (is_exposed ops public_role service) || service.iap_enabled
    then []
    else record (pub_001 ops
          (if runs_privileged roles service || accepts_http service then "high" else "medium")
          (if is_gke
            then "Kubernetes service is internet-facing"
            else "Service allows unauthenticated public invocation")
          service.resource_name (exposure_evidence roles public_role service)) {
            region = service.region;
          }
        ∷ (if is_gke
              && not (service.kind == "gke_service")
              && (not service.tls_enabled || service.plaintext_enabled)
            then pub_002 ops service.resource_name (
                plain (
                  if service.tls_enabled && service.plaintext_enabled
                  then "public endpoint has both TLS and plaintext listeners enabled"
                  else append "public " (append service.kind " has no TLS configuration"))
                ∷ [])
              ∷ []
            else [])
      ++ (if ltb 0 (length dangerous_ports)
          then pub_003 ops service.resource_name
              ((text "public endpoint exposes sensitive ports " ∷ show_ports dangerous_ports) ∷ [])
            ∷ []
          else [])

unfoldable pub evaluate_public_services :
    RuleOps → PublicServiceSecurityFacts → SecurityIamPolicyFacts → List SecurityFinding
evaluate_public_services ops facts iam_facts =
    flat_map (service_findings ops iam_facts (roles_by_member iam_facts)) facts.services
