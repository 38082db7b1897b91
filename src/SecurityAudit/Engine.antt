-- ===== src/SecurityAudit/Engine.antt =====
-- internal/securityaudit/engine.go: an audit, its collectors and its cache of reports. The mutex makes
-- each reading and each writing of the cache one step; what other callers do between the two steps of
-- an audit is an argument of it. The order in which the collectors end and the orders of the loops over
-- maps are chosen anew for each audit; its deadline shows in what the collectors return.
mod Tests
pub mod Cases
pub mod Fresh
pub mod Failures
use Prim.Native.String.{String}
use aura_tracker_gcp.Prelude.{
  ℕ, ◌+◌, ◌*◌, Bool, true, false, not, ◌&&◌, Option, none, some, List, [], ◌∷◌, ◌==◌, string_eq,
  if◌then◌else◌, ltb, ◌⊎◌, inl, inr,
}
use aura_tracker_gcp.GoMap.{GoMap, lookup, insert, delete}
use aura_tracker_gcp.Float.{FloatOps}
use aura_tracker_gcp.SecurityAudit.Facts.{
  SecurityIamPolicyFacts, ServiceAccountSecurityFacts, SecretSecurityFacts,
}
use aura_tracker_gcp.SecurityAudit.NetworkFacts.{
  PublicServiceSecurityFacts, FirewallSecurityFacts, WorkloadIdentitySecurityFacts,
  SecurityRecommendationFacts,
}
use aura_tracker_gcp.SecurityAudit.Report.{SecurityAuditReport}
use aura_tracker_gcp.SecurityAudit.Checks.{
  QuotaError, CollectorError, CollectedFacts, recommender_quota_error,
}
use aura_tracker_gcp.SecurityAudit.Suppressions.{Suppression, LibraryOps, apply_suppressions}
use aura_tracker_gcp.SecurityAudit.Suppressions.Config.{Config}
use aura_tracker_gcp.SecurityAudit.Rules.{evaluate_rules}
use aura_tracker_gcp.SecurityAudit.Rules.Finding.{RuleOps}
use aura_tracker_gcp.SecurityAudit.Correlate.{RangeOver, correlate_workload_identity}
use aura_tracker_gcp.SecurityAudit.Build.{RangeGroups, ReportOps, build_report}

-- A value or an error, as Go's pair of results.
abbrev pub Fetched : Type 0 → Type 0
Fetched A = CollectorError ⊎ A

-- The port that an audit reads, at one project and one time.
pub record DataSource : Type 0 where
  pub search_security_iam_policies : String → Fetched SecurityIamPolicyFacts
  pub list_service_account_security_facts : String → Fetched ServiceAccountSecurityFacts
  pub list_secret_security_facts : String → Fetched SecretSecurityFacts
  pub list_public_service_security_facts : String → Fetched PublicServiceSecurityFacts
  pub list_firewall_security_facts : String → Fetched FirewallSecurityFacts
  pub list_workload_identity_security_facts : String → Fetched WorkloadIdentitySecurityFacts
  pub list_security_recommendations : String → Fetched SecurityRecommendationFacts

-- The goroutines of collect.
pub data Collector : Type 0 where
  iam : Collector
  service_accounts : Collector
  secrets : Collector
  public_services : Collector
  firewalls : Collector
  workload_identity : Collector
  recommendations : Collector

-- The zero values of Go.
abbrev pub no_facts : CollectedFacts
no_facts = record {
  iam = record {
    hierarchy = record { project_id = ""; project_number = ""; organization = ""; nodes = [] };
    policies = [];
    deny_rules = [];
    coverage = [];
    truncated = false;
  };
  service_accounts = record { service_accounts = [] };
  secrets = record { secrets = []; warnings = [] };
  public_services = record { services = []; coverage = []; warnings = [] };
  firewalls = record { firewalls = []; coverage = [] };
  workload_identity = record { clusters = []; coverage = []; warnings = [] };
  recommendations = record {
    recommendations = [];
    enabled = false;
    truncated = false;
    warnings = [];
  };
  errors = [];
  recommendation_err = none;
}

-- The goroutine of `run`: it stores its value or, under the lock, its error.
abbrev pub settle :
    {A : Type 0}
    → String
    → (A → CollectedFacts → CollectedFacts)
    → Fetched A
    → CollectedFacts
    → CollectedFacts
settle category store (inl err) out = record out { errors = insert category err out.errors }
settle category store (inr value) out = store value out

abbrev pub settle_recommendations :
    Fetched SecurityRecommendationFacts → CollectedFacts → CollectedFacts
settle_recommendations (inl err) out = record out { recommendation_err = some err }
settle_recommendations (inr value) out = record out { recommendations = value }

-- A collector ends.
unfoldable pub collector_ends : DataSource → String → Collector → CollectedFacts → CollectedFacts
collector_ends source project iam out =
    settle "iam" (λ value out. record out { iam = value })
      (source.search_security_iam_policies project) out
collector_ends source project service_accounts out =
    settle "service_accounts" (λ value out. record out { service_accounts = value })
      (source.list_service_account_security_facts project) out
collector_ends source project secrets out =
    settle "secret_manager" (λ value out. record out { secrets = value })
      (source.list_secret_security_facts project) out
collector_ends source project public_services out =
    settle "public_services" (λ value out. record out { public_services = value })
      (source.list_public_service_security_facts project) out
collector_ends source project firewalls out =
    settle "firewall" (λ value out. record out { firewalls = value })
      (source.list_firewall_security_facts project) out
collector_ends source project workload_identity out =
    settle "workload_identity" (λ value out. record out { workload_identity = value })
      (source.list_workload_identity_security_facts project) out
collector_ends source project recommendations out =
    settle_recommendations (source.list_security_recommendations project) out

unfoldable pub collectors_end :
    DataSource → String → List Collector → CollectedFacts → CollectedFacts
collectors_end source project [] out = out
collectors_end source project (first ∷ rest) out =
    collectors_end source project rest (collector_ends source project first out)

-- collect, with the order in which the goroutines end
unfoldable pub collect : DataSource → String → List Collector → CollectedFacts
unfolding collectors_end
collect source project order = collectors_end source project order no_facts

pub record CachedReport : Type 0 where
  pub report : SecurityAuditReport
  pub expires_at : ℕ

-- The parts of an engine that audits read or change. The data source is an argument of each audit,
-- with what it answers at that time; none is the missing one.
pub record Engine : Type 0 where
  pub suppressions : List Suppression
  pub cache : GoMap String CachedReport

-- New, with the configuration of WithConfig; the source, the clock and the deadline are arguments.
unfoldable pub new : Config → Engine
new config = record { suppressions = config.suppressions; cache = [] }

pub record SecurityAuditRequest : Type 0 where
  pub project_id : String
  pub refresh : Bool

-- 5 minutes, in nanoseconds
unfoldable pub cache_ttl : ℕ
cache_ttl = 5 * 60 * 1000000000

-- What Go leaves open in one audit: the order in which the collectors end, and the orders of the loops
-- over maps.
pub record Schedule : Type 0 where
  pub order : List Collector
  pub range_over : RangeOver
  pub range_groups : RangeGroups

-- An audit with what it takes from outside: its request, the clock, the answers of the source and the
-- schedule.
pub record Call : Type 0 where
  pub request : SecurityAuditRequest
  pub now : ℕ
  pub source : Option DataSource
  pub schedule : Schedule

-- The libraries that audits call.
pub record AuditOps (F : Type 0) : Type 0 where
  pub float : FloatOps F
  pub library : LibraryOps
  pub rules : RuleOps
  pub texts : ReportOps

abbrev pub quota_retry : Option QuotaError → Option ℕ
quota_retry none = none
quota_retry (some quota) = quota.retry_at

abbrev pub earlier : ℕ → Option ℕ → ℕ
earlier expires none = expires
earlier expires (some retry_at) = if ltb retry_at expires then retry_at else expires

-- Until when a report of the facts is kept; the quota of the recommender may shorten it.
unfoldable pub expiry : ℕ → CollectedFacts → ℕ
unfolding cache_ttl
expiry now facts =
    earlier (now + cache_ttl) (quota_retry (recommender_quota_error facts.recommendation_err))

abbrev or_same :
    WorkloadIdentitySecurityFacts
    → Option WorkloadIdentitySecurityFacts
    → WorkloadIdentitySecurityFacts
or_same facts none = facts
or_same facts (some correlated) = correlated

abbrev correlated : RangeOver → CollectedFacts → CollectedFacts
correlated range_over facts = record facts {
  workload_identity =
      or_same facts.workload_identity
        (correlate_workload_identity range_over (some facts.workload_identity) facts.iam);
}

-- The cached report, unless it has ended.
abbrev pub live : ℕ → Option CachedReport → Option SecurityAuditReport
live now none = none
live now (some cached) = if ltb now cached.expires_at then some cached.report else none

-- What an audit reads of the cache, under its first lock.
unfoldable pub look : SecurityAuditRequest → ℕ → Engine → Option SecurityAuditReport
look req now engine = if req.refresh then none else live now (lookup req.project_id engine.cache)

module _ {F : Type 0} (ops : AuditOps F) where
  -- A report made now, and until when it is kept.
  unfoldable pub fresh :
      Schedule → DataSource → List Suppression → ℕ → String → SecurityAuditReport × ℕ
  fresh schedule source suppressions now project_id =
      let facts = correlated schedule.range_over (collect source project_id schedule.order) in
      let findings = evaluate_rules ops.rules facts now project_id in
      let (active, suppressed) = apply_suppressions ops.library findings suppressions now in
      (
        build_report ops.float ops.texts schedule.range_groups project_id now active suppressed
            facts,
        expiry now facts,
      )

  -- What an audit writes to the cache, under its second lock.
  unfoldable pub keep : ℕ → String → SecurityAuditReport × ℕ → Engine → Engine
  keep now project_id (report, expires_at) engine =
      if ltb now expires_at
      then record engine {
        cache =
            insert project_id (record { report = report; expires_at = expires_at }) engine.cache;
      }
      else record engine { cache = delete project_id engine.cache }

  -- An audit that does not find its report in the cache, from where it has read it.
  unfoldable pub audit_anew : DataSource → Call → Engine → (String ⊎ SecurityAuditReport) × Engine
  unfolding keep
  audit_anew source call engine =
      let project_id = call.request.project_id in
      let made = fresh call.schedule source engine.suppressions call.now project_id in
      (inr made.0, keep call.now project_id made engine)

  -- The report of the cache or, without one, a new one, after what others do meanwhile.
  abbrev pub or_anew :
      Option SecurityAuditReport
      → DataSource
      → Call
      → (Engine → Engine)
      → Engine
      → (String ⊎ SecurityAuditReport) × Engine
  or_anew (some report) source call between engine = (inr report, engine)
  or_anew none source call between engine = audit_anew source call (between engine)

  abbrev pub audit_from :
      Option DataSource
      → Call
      → (Engine → Engine)
      → Engine
      → (String ⊎ SecurityAuditReport) × Engine
  audit_from none call between engine = (inl "securityaudit: data source is required", engine)
  audit_from (some source) call between engine =
      if call.request.project_id == ""
      then (inl "securityaudit: project_id is required", engine)
      else or_anew (look call.request call.now engine) source call between engine

  -- An audit, with what the others do to the engine between its two locks.
  unfoldable pub audit : Call → (Engine → Engine) → Engine → (String ⊎ SecurityAuditReport) × Engine
  audit call between engine = audit_from call.source call between engine

  abbrev pub write_from : Option DataSource → Call → Engine → Engine
  write_from none call engine = engine
  write_from (some source) call engine =
      if call.request.project_id == "" then engine else (audit_anew source call engine).1

  -- What an audit that has not found its report does to the engine, by its second lock.
  unfoldable pub write_step : Call → Engine → Engine
  write_step call engine = write_from call.source call engine
