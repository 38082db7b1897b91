-- ===== src/SecurityAudit/Engine/Failures.antt =====
-- What becomes of the errors of collectors, in whatever order they end.
use Prim.Native.String.{String}
use aura_tracker_gcp.Prelude.{
  ℕ, Bool, true, false, Option, none, some, List, [], ◌∷◌, ◌≡◌, ◌≢◌, refl, sym, ◌∙◌, subst, ap,
  arith, ◌==◌, string_eq, if◌then◌else◌, Member, ◌⊎◌, inl, inr,
}
use aura_tracker_gcp.GoMap.{GoMap, lookup, insert, lookup-insert}
use aura_tracker_gcp.SecurityAudit.NetworkFacts.{SecurityRecommendationFacts}
use aura_tracker_gcp.SecurityAudit.Report.{SecurityFinding}
use aura_tracker_gcp.SecurityAudit.Checks.{CollectorError, CollectedFacts}
use aura_tracker_gcp.SecurityAudit.Correlate.{RangeOver}
use aura_tracker_gcp.SecurityAudit.Rules.{evaluate_rules}
use aura_tracker_gcp.SecurityAudit.Rules.Finding.{RuleOps}
use aura_tracker_gcp.SecurityAudit.Rules.Origin.{evaluate_rules-IsCollected}
use aura_tracker_gcp.SecurityAudit.Engine.{
  Fetched, DataSource, Collector, iam, service_accounts, secrets, public_services, firewalls,
  workload_identity, recommendations, settle, settle_recommendations, collector_ends,
  collectors_end, collect, no_facts, correlated,
}

abbrev error_in : {A : Type 0} → Fetched A → Option CollectorError
error_in (inl err) = some err
error_in (inr value) = none

-- What the collector returns for an error.
abbrev pub error_of : DataSource → String → Collector → Option CollectorError
error_of source project iam = error_in (source.search_security_iam_policies project)
error_of source project service_accounts =
    error_in (source.list_service_account_security_facts project)
error_of source project secrets = error_in (source.list_secret_security_facts project)
error_of source project public_services =
    error_in (source.list_public_service_security_facts project)
error_of source project firewalls = error_in (source.list_firewall_security_facts project)
error_of source project workload_identity =
    error_in (source.list_workload_identity_security_facts project)
error_of source project recommendations = error_in (source.list_security_recommendations project)

-- The category under which a collector's error is stored; none for the recommendations.
abbrev pub category_of : Collector → String
category_of iam = "iam"
category_of service_accounts = "service_accounts"
category_of secrets = "secret_manager"
category_of public_services = "public_services"
category_of firewalls = "firewall"
category_of workload_identity = "workload_identity"
category_of recommendations = ""

abbrev of_category : String → Collector
of_category category =
    if category == "iam"
    then iam
    else if category == "service_accounts"
    then service_accounts
    else if category == "secret_manager"
    then secrets
    else if category == "public_services"
    then public_services
    else if category == "firewall"
    then firewalls
    else if category == "workload_identity"
    then workload_identity
    else recommendations

of_category-category_of : (c : Collector) → of_category (category_of c) ≡ c
of_category-category_of iam = refl
of_category-category_of service_accounts = refl
of_category-category_of secrets = refl
of_category-category_of public_services = refl
of_category-category_of firewalls = refl
of_category-category_of workload_identity = refl
of_category-category_of recommendations = refl

category_of-injective : (c d : Collector) → category_of c ≡ category_of d → c ≡ d
category_of-injective c d h =
    sym (of_category-category_of c) ∙ ap of_category h ∙ of_category-category_of d

abbrev with_error :
    Bool
    → String
    → Option CollectorError
    → GoMap String CollectorError
    → GoMap String CollectorError
with_error true category found errors = errors
with_error false category none errors = errors
with_error false category (some err) errors = insert category err errors

settle-errors :
    {A : Type 0} (category : String) (store : A → CollectedFacts → CollectedFacts)
    (found : Fetched A) (out : CollectedFacts)
    → ((value : A) → (store value out).errors ≡ out.errors)
    → (settle category store found out).errors
      ≡ with_error false category (error_in found) out.errors
settle-errors category store (inl err) out same = refl
settle-errors category store (inr value) out same = same value

settle_recommendations-errors :
    (found : Fetched SecurityRecommendationFacts) (out : CollectedFacts)
    → (settle_recommendations found out).errors ≡ out.errors
settle_recommendations-errors (inl err) out = refl
settle_recommendations-errors (inr value) out = refl

lookup-with_error :
    (asked category : String) (nameless : Bool) (found : Option CollectorError)
    (errors : GoMap String CollectorError)
    → (lookup asked (with_error nameless category found errors) ≡ lookup asked errors)
      ⊎ ((asked ≡ category) × (lookup asked (with_error nameless category found errors) ≡ found))
lookup-with_error asked category true found errors = inl refl
lookup-with_error asked category false none errors = inl refl
lookup-with_error asked category false (some err) errors =
    ground (arith, lookup-insert category asked err errors, string_eq.equals_iff category asked)

nameless : (c : Collector) → c ≢ recommendations → (category_of c == "") ≡ false
nameless iam h = refl
nameless service_accounts h = refl
nameless secrets h = refl
nameless public_services h = refl
nameless firewalls h = refl
nameless workload_identity h = refl
nameless recommendations h = elim (h refl) [ ]

module _ (source : DataSource) (project : String) where
  collector_ends-errors :
      (d : Collector) (out : CollectedFacts)
      → (collector_ends source project d out).errors
        ≡ with_error (category_of d == "") (category_of d) (error_of source project d) out.errors
  unfolding collector_ends
  collector_ends-errors iam out =
      settle-errors "iam" (λ v o. record o { iam = v }) _ out (λ v. refl)
  collector_ends-errors service_accounts out =
      settle-errors "service_accounts" (λ v o. record o { service_accounts = v }) _ out (λ v. refl)
  collector_ends-errors secrets out =
      settle-errors "secret_manager" (λ v o. record o { secrets = v }) _ out (λ v. refl)
  collector_ends-errors public_services out =
      settle-errors "public_services" (λ v o. record o { public_services = v }) _ out (λ v. refl)
  collector_ends-errors firewalls out =
      settle-errors "firewall" (λ v o. record o { firewalls = v }) _ out (λ v. refl)
  collector_ends-errors workload_identity out =
      settle-errors "workload_identity" (λ v o. record o { workload_identity = v }) _ out
        (λ v. refl)
  collector_ends-errors recommendations out = settle_recommendations-errors _ out

  -- What is stored for a collector changes only when it ends, to its own error.
  ended_error :
      (c d : Collector) (out : CollectedFacts)
      → (lookup (category_of c) (collector_ends source project d out).errors
          ≡ lookup (category_of c) out.errors)
        ⊎ (lookup (category_of c) (collector_ends source project d out).errors
            ≡ error_of source project c)
  ended_error c d out =
      subst
        (λ errors.
          (lookup (category_of c) errors ≡ lookup (category_of c) out.errors)
          ⊎ (lookup (category_of c) errors ≡ error_of source project c))
        (sym (collector_ends-errors d out))
        (elim (lookup-with_error (category_of c) (category_of d) (category_of d == "")
          (error_of source project d) out.errors) [
            | inl same ↦ inl same
            | inr (named, own) ↦
                inr (own ∙ ap (error_of source project) (sym (category_of-injective c d named)))
          ])

  ended_own :
      (c : Collector) (err : CollectorError) (out : CollectedFacts)
      → c ≢ recommendations
      → error_of source project c ≡ some err
      → lookup (category_of c) (collector_ends source project c out).errors ≡ some err
  ended_own c err out named fails =
      subst (λ errors. lookup (category_of c) errors ≡ some err) (sym (collector_ends-errors c out))
        (subst
          (λ found.
            lookup (category_of c)
              (with_error (category_of c == "") (category_of c) found out.errors)
            ≡ some err)
          (sym fails)
          (subst
            (λ b.
              lookup (category_of c) (with_error b (category_of c) (some err) out.errors)
              ≡ some err)
            (sym (nameless c named))
            (ground (
              arith,
              lookup-insert (category_of c) (category_of c) err out.errors,
              string_eq.equals_iff (category_of c) (category_of c),
            ))))

  collectors_end-errors :
      (c : Collector) (err : CollectorError) (order : List Collector) (out : CollectedFacts)
      → c ≢ recommendations
      → error_of source project c ≡ some err
      → (Member c order ⊎ (lookup (category_of c) out.errors ≡ some err))
      → lookup (category_of c) (collectors_end source project order out).errors ≡ some err
  unfolding collectors_end
  collectors_end-errors c err [] out named fails (inl m) = elim m [ ]
  collectors_end-errors c err [] out named fails (inr there) = there
  collectors_end-errors c err (d ∷ rest) out named fails h =
      collectors_end-errors c err rest (collector_ends source project d out) named fails (elim h [
        | inr there ↦ elim (ended_error c d out) [
          | inl same ↦ inr (same ∙ there)
          | inr own ↦ inr (own ∙ fails)
        ]
        | inl m ↦ elim m [
          | inr later ↦ inl later
          | inl same ↦ inr (
              subst
                (λ x.
                  lookup (category_of c) (collector_ends source project x out).errors ≡ some err)
                same (ended_own c err out named fails))
        ]
      ])

  -- A collector that fails gives an audit no findings of its category, in whatever order the
  -- collectors end; only a recommendation of the provider can still bear that category.
  pub failed_collector-silent :
      (rules : RuleOps) (range_over : RangeOver) (now : ℕ) (order : List Collector) (c : Collector)
      (err : CollectorError) (f : SecurityFinding)
      → Member c order
      → c ≢ recommendations
      → error_of source project c ≡ some err
      → Member f
          (evaluate_rules rules (correlated range_over (collect source project order)) now project)
      → f.category ≡ category_of c
      → f.rule_id ≡ "REC-001"
  unfolding collect
  failed_collector-silent rules range_over now order c err f runs named fails found of_category_c =
      let facts = correlated range_over (collect source project order) in
      let stored : lookup (category_of c) facts.errors ≡ some err =
        collectors_end-errors c err order no_facts named fails (inl runs) in
      elim (evaluate_rules-IsCollected rules facts now project f found) [
        | inr (fine, on, rule) ↦ rule
        | inl fine ↦
            let contradiction : none ≡ some err =
              sym fine ∙ ap (λ k. lookup k facts.errors) of_category_c ∙ stored in
            ground arith
      ]
