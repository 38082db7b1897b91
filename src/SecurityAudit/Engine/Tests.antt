-- ===== src/SecurityAudit/Engine/Tests.antt =====
-- Audits of a project whose policies cannot be read.
use aura_tracker_gcp.SecurityAudit.Rules.Finding.{new_finding}
use aura_tracker_gcp.SecurityAudit.Rules.Roles.{contains}
use aura_tracker_gcp.SecurityAudit.Correlate.{correlate_workload_identity}
use aura_tracker_gcp.SecurityAudit.Rules.Firewalls.{evaluate_firewalls}
use aura_tracker_gcp.SecurityAudit.Rules.Services.{evaluate_public_services}
use aura_tracker_gcp.SecurityAudit.Rules.Accounts.{evaluate_secrets, evaluate_service_accounts}
use aura_tracker_gcp.GoMap.{insert, lookup}
use aura_tracker_gcp.GoMap.Range.{as_listed}
use aura_tracker_gcp.GoSort.{sort_in, slice_stable}
use aura_tracker_gcp.SecurityAudit.Rules.Order.{deduplicate_and_sort}
use aura_tracker_gcp.Message.{pos}
use aura_tracker_gcp.Prelude.{
  ◌↔◌, ℕ, true, false, none, some, List, [], ◌∷◌, ◌≡◌, ◌≢◌, refl, Member, ◌⊎◌, inl, inr, arith,
}
use aura_tracker_gcp.SecurityAudit.Checks.{recommender_quota_error, CollectorError}
use aura_tracker_gcp.SecurityAudit.Report.{SecurityAuditReport}
use aura_tracker_gcp.SecurityAudit.NetworkFacts.{SecurityRecommendationFact}
use aura_tracker_gcp.SecurityAudit.Tests.{whole, literal}
use aura_tracker_gcp.SecurityAudit.Rules.{evaluate_rules}
use aura_tracker_gcp.SecurityAudit.Rules.Tests.{simple}
use aura_tracker_gcp.SecurityAudit.Rules.Workloads.{
  evaluate_provider_recommendations, evaluate_workload_identity, recommendation_finding,
}
use aura_tracker_gcp.SecurityAudit.Engine.{
  expiry, audit_anew, collector_ends, DataSource, Collector, iam, service_accounts, secrets,
  public_services, firewalls, workload_identity, recommendations, no_facts, AuditOps, collect,
  correlated, fresh, new, audit, Call, Schedule, write_step, look,
}
use aura_tracker_gcp.SecurityAudit.Suppressions.Config.{Config, validate_config}
use aura_tracker_gcp.SecurityAudit.Suppressions.Config.Valid.{IsValid, validate_config-IsValid_iff}
use aura_tracker_gcp.SecurityAudit.Engine.Fresh.{after, MadeNow, MadeBefore, audit-MadeBefore}
use aura_tracker_gcp.SecurityAudit.Engine.Failures.{failed_collector-silent}

abbrev denied : CollectorError
denied = record { message = "permission denied"; quota = none }

abbrev advice : SecurityRecommendationFact
advice = record {
  name = "r";
  recommender_id = "google.iam.policy.Recommender";
  subtype = "REMOVE_ROLE";
  description = "unused role";
  priority = "P2";
  last_refresh_time = "";
  target_resources = [];
}

abbrev unreadable : DataSource
unreadable = record {
  search_security_iam_policies = λ project. inl denied;
  list_service_account_security_facts = λ project. inr no_facts.service_accounts;
  list_secret_security_facts = λ project. inr no_facts.secrets;
  list_public_service_security_facts = λ project. inr no_facts.public_services;
  list_firewall_security_facts = λ project. inr no_facts.firewalls;
  list_workload_identity_security_facts = λ project. inr no_facts.workload_identity;
  list_security_recommendations = λ project.
      inr (record {
        recommendations = advice ∷ [];
        enabled = true;
        truncated = false;
        warnings = [];
      });
}

abbrev readable : DataSource
readable = record unreadable { search_security_iam_policies = λ project. inr no_facts.iam }

-- The policies come last.
abbrev policies_last : List Collector
policies_last =
    recommendations ∷ workload_identity ∷ firewalls ∷ public_services ∷ secrets ∷ service_accounts
    ∷ iam ∷ []

abbrev in_memory : AuditOps ℕ
in_memory = record {
  float = whole;
  library = literal;
  rules = simple;
  texts = record {
    audit_digest = λ project time version. "000000000000";
    rfc3339 = λ now. "";
    render_markdown = λ report. "";
  };
}

abbrev in_order : Schedule
in_order = record {
  order = policies_last;
  range_over = λ account. as_listed;
  range_groups = as_listed;
}

not_recommendations : iam ≢ recommendations
not_recommendations same = ground arith

advised : Member (recommendation_finding simple "p" advice) (
    evaluate_rules simple
      (correlated (λ account. as_listed) (collect unreadable "p" policies_last))
      0
      "p")
unfolding evaluate_rules collect deduplicate_and_sort slice_stable lookup collector_ends insert
    evaluate_service_accounts evaluate_secrets evaluate_public_services evaluate_firewalls
    evaluate_workload_identity correlate_workload_identity evaluate_provider_recommendations
    contains sort_in
advised = inl refl

failed_collector-silent_example : (recommendation_finding simple "p" advice).rule_id ≡ "REC-001"
unfolding recommendation_finding new_finding
failed_collector-silent_example =
    failed_collector-silent unreadable "p" simple (λ account. as_listed) 0 policies_last iam denied
      (recommendation_finding simple "p" advice) (inr (inr (inr (inr (inr (inr (inl refl)))))))
      not_recommendations refl advised refl

-- No suppressions, and the limits at their zero values.
abbrev defaults : Config
defaults = record {
  suppressions = [];
  kubernetes_access = "";
  fleet_project_id = "";
  cluster_concurrency = pos 0;
  per_cluster_timeout_seconds = pos 0;
  max_resources_per_kind = pos 0;
}

validate_config-IsValid_iff_example :
    (validate_config literal defaults ≡ none) ↔ IsValid literal defaults
validate_config-IsValid_iff_example = validate_config-IsValid_iff literal defaults

-- Audits of sources that differ.
abbrev call_at : ℕ → DataSource → Call
call_at now source = record {
  request = record { project_id = "p"; refresh = false };
  now = now;
  source = some source;
  schedule = in_order;
}

abbrev first_call : Call
first_call = call_at 3 unreadable

abbrev second_call : Call
second_call = call_at 7 readable

abbrev first_report : SecurityAuditReport
first_report = (fresh in_memory in_order unreadable [] 3 "p").0

from_cache :
    (audit in_memory second_call
      (after in_memory (second_call ∷ []))
      (after in_memory (first_call ∷ []) (new defaults))).0
    ≡ inr first_report
unfolding new audit after lookup audit_anew fresh expiry recommender_quota_error collect
    collector_ends insert look write_step
from_cache = refl

audit-MadeBefore_example :
    let before = after in_memory (first_call ∷ []) (new defaults) in
    let engine = (audit in_memory second_call (after in_memory (second_call ∷ [])) before).1 in
    (MadeNow in_memory [] second_call first_report
      × (engine ≡ after in_memory (second_call ∷ second_call ∷ []) before))
    ⊎ (MadeBefore in_memory [] (first_call ∷ []) second_call first_report × (engine ≡ before))
audit-MadeBefore_example =
    audit-MadeBefore in_memory defaults (first_call ∷ []) (second_call ∷ []) second_call
      first_report from_cache
