-- ===== src/SecurityAudit/Rules/Origin.antt =====
-- Which collector a finding of an audit comes from.
use Prim.Native.String.{String}
use aura_tracker_gcp.Prelude.{
  ℕ, true, none, List, [], ◌∷◌, ◌++◌, ◌≡◌, sym, subst, ap, string_eq, nat_eq, if◌then◌else◌,
  flat_map-Member, Member, Member-append, ◌⊎◌, inl, inr, Bool-cases, Option-cases,
}
use aura_tracker_gcp.SecurityAudit.NetworkFacts.{SecurityRecommendationFacts}
use aura_tracker_gcp.SecurityAudit.Report.{SecurityFinding}
use aura_tracker_gcp.SecurityAudit.Checks.{CollectedFacts}
use aura_tracker_gcp.GoMap.{lookup}
use aura_tracker_gcp.SecurityAudit.Rules.{unless_failed, all_findings, evaluate_rules}
use aura_tracker_gcp.SecurityAudit.Rules.Order.Kept.{deduplicate_and_sort_kept}
use aura_tracker_gcp.SecurityAudit.Rules.Category.{
  OfCategory, evaluate_iam-category, accounts-category, secrets-category, services-category,
  firewalls-category, workloads-category,
}
use aura_tracker_gcp.SecurityAudit.Rules.Finding.{RuleOps, new_finding}
use aura_tracker_gcp.SecurityAudit.Rules.Workloads.{
  recommendation_finding, evaluate_provider_recommendations,
}

-- The collector that a finding comes from returned no error; it is the one of the finding's
-- category, or, for a recommendation, that of the enabled provider.
abbrev pub IsCollected : CollectedFacts → SecurityFinding → Type 0
IsCollected facts f =
    (lookup f.category facts.errors ≡ none)
    ⊎ (facts.recommendation_err ≡ none
        × (facts.recommendations.enabled ≡ true)
        × (f.rule_id ≡ "REC-001"))

unless_failed-IsCollected :
    (facts : CollectedFacts) (category : String) (fs : List SecurityFinding) (f : SecurityFinding)
    → OfCategory category fs
    → Member f (unless_failed (lookup category facts.errors) fs)
    → IsCollected facts f
unless_failed-IsCollected facts category fs f of m =
    elim (Option-cases (lookup category facts.errors)) [
      | inl fine ↦ inl (
          subst (λ c. lookup c facts.errors ≡ none)
            (sym (of.each f (subst (λ e. Member f (unless_failed e fs)) fine m))) fine)
      | inr (err, failed) ↦ elim (subst (λ e. Member f (unless_failed e fs)) failed m) [ ]
    ]

recommendations-rule :
    (ops : RuleOps) (facts : SecurityRecommendationFacts) (project_id : String)
    (f : SecurityFinding)
    → Member f (evaluate_provider_recommendations ops facts project_id)
    → f.rule_id ≡ "REC-001"
unfolding evaluate_provider_recommendations recommendation_finding new_finding
recommendations-rule ops facts project_id f m =
    let (r, there, here) =
      flat_map-Member (λ r. recommendation_finding ops project_id r ∷ []) facts.recommendations f
        m in
    elim here [ inl same ↦ ap (λ (x : SecurityFinding). x.rule_id) same | inr k ↦ elim k [ ] ]

recommendations-IsCollected :
    (ops : RuleOps) (facts : CollectedFacts) (project_id : String) (f : SecurityFinding)
    → Member f (
        unless_failed facts.recommendation_err (
          if facts.recommendations.enabled
          then evaluate_provider_recommendations ops facts.recommendations project_id
          else []))
    → IsCollected facts f
recommendations-IsCollected ops facts project_id f m =
    let found =
      if facts.recommendations.enabled
      then evaluate_provider_recommendations ops facts.recommendations project_id
      else [] in
    elim (Option-cases facts.recommendation_err) [
      | inr (err, failed) ↦ elim (subst (λ e. Member f (unless_failed e found)) failed m) [ ]
      | inl fine ↦
          let there : Member f found = subst (λ e. Member f (unless_failed e found)) fine m in
          elim (Bool-cases facts.recommendations.enabled) [
            | inr off ↦
                elim (subst
                  (λ b. Member f (
                    if b
                    then evaluate_provider_recommendations ops facts.recommendations project_id
                    else []))
                  off there) [ ]
            | inl on ↦ inr (
              fine,
              on,
              recommendations-rule ops facts.recommendations project_id f (
                  subst
                    (λ b. Member f (
                      if b
                      then evaluate_provider_recommendations ops facts.recommendations project_id
                      else []))
                    on there),
            )
          ]
    ]

from_either :
    (facts : CollectedFacts) (xs ys : List SecurityFinding) (f : SecurityFinding)
    → (Member f xs → IsCollected facts f)
    → (Member f ys → IsCollected facts f)
    → Member f (xs ++ ys)
    → IsCollected facts f
from_either facts xs ys f h k m = elim (Member-append f xs ys m) [ inl l ↦ h l | inr r ↦ k r ]

-- Every finding of an audit comes from a collector that returned no error: the one of the finding's
-- category or, for a recommendation, that of the enabled provider.
pub evaluate_rules-IsCollected :
    (ops : RuleOps) (facts : CollectedFacts) (now : ℕ) (project_id : String) (f : SecurityFinding)
    → Member f (evaluate_rules ops facts now project_id)
    → IsCollected facts f
unfolding evaluate_rules all_findings
evaluate_rules-IsCollected ops facts now project_id f m =
    let found = (deduplicate_and_sort_kept (all_findings ops facts now project_id)).2 f m in
    from_either facts _ _ f
      (from_either facts _ _ f
        (from_either facts _ _ f
          (from_either facts _ _ f
            (from_either facts _ _ f
              (from_either facts _ _ f
                (unless_failed-IsCollected facts _ _ f (evaluate_iam-category ops facts.iam))
                (unless_failed-IsCollected facts _ _ f
                  (accounts-category ops facts.service_accounts facts.iam now)))
              (unless_failed-IsCollected facts _ _ f
                (secrets-category ops facts.secrets facts.iam now)))
            (unless_failed-IsCollected facts _ _ f
              (services-category ops facts.public_services facts.iam)))
          (unless_failed-IsCollected facts _ _ f (firewalls-category ops facts.firewalls)))
        (unless_failed-IsCollected facts _ _ f (workloads-category ops facts.workload_identity)))
      (recommendations-IsCollected ops facts project_id f) found
