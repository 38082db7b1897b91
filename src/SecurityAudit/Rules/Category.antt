-- ===== src/SecurityAudit/Rules/Category.antt =====
-- Which category the findings of each group of rules have.
use Prim.Native.String.{String}
use aura_tracker_gcp.Prelude.{
  ℕ, Bool, true, false, not, ◌||◌, Option, none, some, List, [], ◌∷◌, ◌++◌, ◌≡◌, refl, ◌∙◌, ap,
  arith, string_eq, nat_eq, if◌then◌else◌, ltb, length, flat_map, Member, Member-append, inl, inr,
}
use aura_tracker_gcp.SecurityAudit.Facts.{
  SecurityIamPolicyFacts, ServiceAccountKeyFact, ServiceAccountSecurityFacts, SecretSecurityFacts,
}
use aura_tracker_gcp.SecurityAudit.NetworkFacts.{
  PublicServiceSecurityFacts, FirewallSecurityFact, FirewallSecurityFacts,
  WorkloadIdentitySecurityFacts,
}
use aura_tracker_gcp.SecurityAudit.Report.{SecurityFinding}
use aura_tracker_gcp.SecurityAudit.Rules.Finding.{RuleOps, new_finding}
use aura_tracker_gcp.SecurityAudit.Rules.Iam.{member_findings, evaluate_iam}
use aura_tracker_gcp.SecurityAudit.Rules.Accounts.{
  public_secret, key_finding, key_findings, account_findings, evaluate_service_accounts,
  secret_findings, evaluate_secrets,
}
use aura_tracker_gcp.SecurityAudit.Rules.Services.{service_findings, evaluate_public_services}
use aura_tracker_gcp.SecurityAudit.Rules.Firewalls.{
  Exposure, exposure, faces_internet, unless_shadowed, open_findings, firewall_findings,
  evaluate_firewalls,
}
use aura_tracker_gcp.SecurityAudit.Rules.Firewalls.Reach.{fully_shadowing_deny}
use aura_tracker_gcp.SecurityAudit.Rules.Workloads.{
  pool_findings, workload_findings, cluster_findings, evaluate_workload_identity,
}

-- Every finding of the list has the category.
pub record OfCategory (category : String) (fs : List SecurityFinding) : Type 0 where
  pub each : (f : SecurityFinding) → Member f fs → f.category ≡ category

none_of : (c : String) → OfCategory c []
none_of c = record { each = λ f m. elim m [ ] }

All-append :
    (c : String) (xs ys : List SecurityFinding)
    → OfCategory c xs
    → OfCategory c ys
    → OfCategory c (xs ++ ys)
All-append c xs ys a b = record {
  each = λ f m. elim (Member-append f xs ys m) [ inl l ↦ a.each f l | inr r ↦ b.each f r ];
}

All-flat_map :
    {A : Type 0} (c : String) (f : A → List SecurityFinding) (xs : List A)
    → ((x : A) → OfCategory c (f x))
    → OfCategory c (flat_map f xs)
All-flat_map c f [] h = none_of c
All-flat_map c f (x ∷ xs) h = All-append c (f x) (flat_map f xs) (h x) (All-flat_map c f xs h)

All-if :
    (c : String) (test : Bool) (xs ys : List SecurityFinding)
    → OfCategory c xs
    → OfCategory c ys
    → OfCategory c (if test then xs else ys)
All-if c true xs ys a b = a
All-if c false xs ys a b = b

-- A finding that a test guards.
one : (c : String) (f : SecurityFinding) → f.category ≡ c → OfCategory c (f ∷ [])
one c f h = record {
  each = λ g m. elim m [
    | inl same ↦ ap (λ (x : SecurityFinding). x.category) same ∙ h
    | inr l ↦ elim l [ ]
  ];
}

guarded :
    (c : String) (test : Bool) (f : SecurityFinding)
    → f.category ≡ c
    → OfCategory c (if test then f ∷ [] else [])
guarded c test f h = All-if c test (f ∷ []) [] (one c f h) (none_of c)

pub evaluate_iam-category :
    (ops : RuleOps) (facts : SecurityIamPolicyFacts) → OfCategory "iam" (evaluate_iam ops facts)
unfolding evaluate_iam member_findings new_finding
evaluate_iam-category ops facts = All-flat_map "iam" _ facts.policies (λ policy.
    All-flat_map "iam" _ policy.bindings (λ binding. All-flat_map "iam" _ binding.members (λ member.
      All-if "iam" _ _ _ (All-if "iam" _ _ _ (none_of _) (one "iam" _ refl)) (
        All-append "iam" _ _
          (All-append "iam" _ _ (guarded "iam" _ _ refl) (guarded "iam" _ _ refl))
          (guarded "iam" _ _ refl)))))

keys-category :
    (ops : RuleOps) (now : ℕ) (keys : List ServiceAccountKeyFact)
    → OfCategory "service_accounts" (key_findings ops now keys)
unfolding key_finding new_finding
keys-category ops now [] = none_of _
keys-category ops now (key ∷ rest) =
    All-append "service_accounts" (key_finding ops now key ∷ []) _
      (one _ _ (key_category ops now key)) (keys-category ops now rest)
  where
    key_category :
        (ops : RuleOps) (now : ℕ) (key : ServiceAccountKeyFact)
        → (key_finding ops now key).category ≡ "service_accounts"
    key_category ops now key = ground arith

pub accounts-category :
    (ops : RuleOps) (facts : ServiceAccountSecurityFacts) (iam : SecurityIamPolicyFacts) (now : ℕ)
    → OfCategory "service_accounts" (evaluate_service_accounts ops facts iam now)
unfolding evaluate_service_accounts account_findings new_finding
accounts-category ops facts iam now =
    All-flat_map "service_accounts" _ facts.service_accounts (λ account.
      All-append "service_accounts" _ _ (keys-category ops now account.keys)
        (guarded "service_accounts" _ _ refl))

public-category :
    (ops : RuleOps) (resource : String) (roles : List String)
    → OfCategory "secret_manager" (public_secret ops resource roles)
unfolding new_finding
public-category ops resource [] = none_of _
public-category ops resource (role ∷ rest) =
    All-append "secret_manager" (_ ∷ []) _ (one "secret_manager" _ refl)
      (public-category ops resource rest)

pub secrets-category :
    (ops : RuleOps) (facts : SecretSecurityFacts) (iam : SecurityIamPolicyFacts) (now : ℕ)
    → OfCategory "secret_manager" (evaluate_secrets ops facts iam now)
unfolding evaluate_secrets secret_findings new_finding
secrets-category ops facts iam now = All-flat_map "secret_manager" _ facts.secrets (λ secret.
    All-append "secret_manager" _ _
      (All-append "secret_manager" _ _
        (All-append "secret_manager" _ _ (public-category ops secret.resource_name _)
          (guarded "secret_manager" _ _ refl))
        (guarded "secret_manager" _ _ refl))
      (guarded "secret_manager" _ _ refl))

pub services-category :
    (ops : RuleOps) (facts : PublicServiceSecurityFacts) (iam : SecurityIamPolicyFacts)
    → OfCategory "public_services" (evaluate_public_services ops facts iam)
unfolding evaluate_public_services service_findings new_finding
services-category ops facts iam = All-flat_map "public_services" _ facts.services (λ service.
    All-if "public_services" _ _ _ (none_of _) (
      All-append "public_services" _ _
        (All-append "public_services" (_ ∷ []) _ (one "public_services" _ refl)
          (guarded "public_services" _ _ refl))
        (guarded "public_services" _ _ refl)))

open-category :
    (ops : RuleOps) (fw : FirewallSecurityFact) (seen : Exposure)
    → OfCategory "firewall" (open_findings ops fw seen)
unfolding open_findings new_finding
open-category ops fw seen =
    All-append "firewall" _ _
      (All-if "firewall" seen.all_traffic _ _ (one "firewall" _ refl) (
        All-if "firewall" (ltb 0 (length seen.dangerous)) _ _ (one "firewall" _ refl)
          (guarded "firewall" seen.web_only _ refl)))
      (guarded "firewall" (not fw.logging_enabled) _ refl)

unless_shadowed-category :
    (ops : RuleOps) (fw : FirewallSecurityFact) (seen : Exposure)
    (deny : Option FirewallSecurityFact)
    → OfCategory "firewall" (unless_shadowed ops fw seen deny)
unfolding new_finding
unless_shadowed-category ops fw seen none = open-category ops fw seen
unless_shadowed-category ops fw seen (some deny) = one "firewall" _ refl

firewall-category :
    (ops : RuleOps) (firewalls : List FirewallSecurityFact) (fw : FirewallSecurityFact)
    → OfCategory "firewall" (firewall_findings ops firewalls fw)
unfolding firewall_findings new_finding
firewall-category ops firewalls fw =
    let seen =
      exposure ops fw.allowed (record { all_traffic = false; dangerous = []; web_only = true }) in
    All-if "firewall" (not (faces_internet ops fw)) _ _ (none_of _) (
      All-if "firewall" fw.disabled _ _
        (guarded "firewall" (seen.all_traffic || ltb 0 (length seen.dangerous)) _ refl)
        (unless_shadowed-category ops fw seen (fully_shadowing_deny ops fw firewalls)))

pub firewalls-category :
    (ops : RuleOps) (facts : FirewallSecurityFacts)
    → OfCategory "firewall" (evaluate_firewalls ops facts)
unfolding evaluate_firewalls
firewalls-category ops facts =
    All-flat_map "firewall" (firewall_findings ops facts.firewalls) facts.firewalls
      (firewall-category ops facts.firewalls)

pub workloads-category :
    (ops : RuleOps) (facts : WorkloadIdentitySecurityFacts)
    → OfCategory "workload_identity" (evaluate_workload_identity ops facts)
unfolding evaluate_workload_identity cluster_findings pool_findings workload_findings new_finding
workloads-category ops facts =
    let c : String = "workload_identity" in
    All-flat_map c _ facts.clusters (λ cluster.
      All-append c _ _
        (All-append c _ _ (guarded c _ _ refl) (
          All-flat_map c _ cluster.node_pools
            (λ pool. All-append c _ _ (guarded c _ _ refl) (guarded c _ _ refl))))
        (All-flat_map c _ cluster.service_accounts (λ account.
          All-append c _ _
            (All-append c _ _
              (All-append c _ _ (All-append c _ _ (guarded c _ _ refl) (guarded c _ _ refl))
                (guarded c _ _ refl))
              (guarded c _ _ refl))
            (guarded c _ _ refl))))
