-- ===== src/SecurityAudit/Engine/Cases.antt =====
-- The ways in which an audit can end.
use Prim.Native.String.{String}
use aura_tracker_gcp.Prelude.{
  ℕ, ◌<◌, Bool, true, false, Option, none, some, ◌≡◌, refl, sym, ◌∙◌, ap, arith, ◌==◌, string_eq,
  if◌then◌else◌, ltb, ◌⊎◌, inl, inr, Bool-cases, Option-cases,
}
use aura_tracker_gcp.GoMap.{GoMap, lookup, insert, delete, lookup-insert, lookup-delete}
use aura_tracker_gcp.SecurityAudit.Report.{SecurityAuditReport}
use aura_tracker_gcp.SecurityAudit.Engine.{
  DataSource, Engine, CachedReport, Call, AuditOps, live, look, fresh, keep, audit_anew, or_anew,
  audit_from, audit, write_from, write_step,
}

same_suppressions :
    (b : Bool) (kept dropped : GoMap String CachedReport) (engine : Engine)
    → (if b then record engine { cache = kept } else record engine { cache = dropped }).suppressions
      ≡ engine.suppressions
same_suppressions true kept dropped engine = refl
same_suppressions false kept dropped engine = refl

same_cache :
    (b : Bool) (kept dropped : GoMap String CachedReport) (engine : Engine)
    → (if b then record engine { cache = kept } else record engine { cache = dropped }).cache
      ≡ (if b then kept else dropped)
same_cache true kept dropped engine = refl
same_cache false kept dropped engine = refl

abbrev pub stored : {V : Type 0} → Bool → String → V → GoMap String V → GoMap String V
stored b key value m = if b then insert key value m else delete key m

pub lookup-stored :
    {V : Type 0} (b : Bool) (key asked : String) (value found : V) (m : GoMap String V)
    → lookup asked (stored b key value m) ≡ some found
    → ((key ≡ asked) × (found ≡ value)) ⊎ (lookup asked m ≡ some found)
lookup-stored true key asked value found m h =
    ground (arith, lookup-insert key asked value m, string_eq.equals_iff key asked)
lookup-stored false key asked value found m h =
    ground (arith, lookup-delete key asked m, string_eq.equals_iff key asked)

-- What a reading of the cache finds.
live-cases :
    (refresh : Bool) (now : ℕ) (found : Option CachedReport)
    → ((if refresh then none else live now found) ≡ none)
      ⊎ ((cached : CachedReport) × (found ≡ some cached)
          × (now < cached.expires_at)
          × (refresh ≡ false)
          × ((if refresh then none else live now found) ≡ some cached.report))
live-cases true now found = inl refl
live-cases false now none = inl refl
live-cases false now (some cached) = elim (Bool-cases (ltb now cached.expires_at)) [
  | inl alive ↦
      inr (cached, refl, ground arith, refl, ap (λ b. if b then some cached.report else none) alive)
  | inr ended ↦ inl (ap (λ b. if b then some cached.report else none) ended)
]

report_of : SecurityAuditReport → (String ⊎ SecurityAuditReport) → SecurityAuditReport
report_of default (inl message) = default
report_of default (inr report) = report

pub inr_same :
    (a b : SecurityAuditReport) → ◌≡◌ {A = String ⊎ SecurityAuditReport} (inr a) (inr b) → a ≡ b
unfolding report_of
inr_same a b h = ap (report_of a) h

pub no_report :
    (message : String) (report : SecurityAuditReport)
    → ◌≡◌ {A = String ⊎ SecurityAuditReport} (inl message) (inr report)
    → true ≡ false
no_report message report h = ground arith

module _ {F : Type 0} (ops : AuditOps F) where
  pub keep-suppressions :
      (now : ℕ) (project_id : String) (made : SecurityAuditReport × ℕ) (engine : Engine)
      → (keep ops now project_id made engine).suppressions ≡ engine.suppressions
  unfolding keep
  keep-suppressions now project_id made engine = same_suppressions (ltb now made.1) _ _ engine

  pub keep-cache :
      (now : ℕ) (project_id : String) (made : SecurityAuditReport × ℕ) (engine : Engine)
      → (keep ops now project_id made engine).cache
        ≡ stored
            (ltb now made.1)
            project_id
            (record { report = made.0; expires_at = made.1 })
            engine.cache
  unfolding keep
  keep-cache now project_id made engine = same_cache (ltb now made.1) _ _ engine

  -- The report comes from the cache.
  abbrev pub FromCache : Call → (Engine → Engine) → Engine → Type 0
  FromCache call between engine =
      (cached : CachedReport) × (lookup call.request.project_id engine.cache ≡ some cached)
      × (call.now < cached.expires_at)
      × (call.request.refresh ≡ false)
      × (audit ops call between engine ≡ (inr cached.report, engine))

  abbrev pub Refused : Call → (Engine → Engine) → Engine → Type 0
  Refused call between engine =
      (message : String) × (audit ops call between engine ≡ (inl message, engine))

  abbrev pub made_by : Call → Engine → DataSource → SecurityAuditReport × ℕ
  made_by call engine source =
      fresh ops call.schedule source engine.suppressions call.now call.request.project_id

  abbrev pub kept_by : Call → Engine → DataSource → Engine
  kept_by call engine source =
      keep ops call.now call.request.project_id (made_by call engine source) engine

  -- The writing makes a report and keeps it.
  abbrev pub Writes : Call → Engine → Type 0
  Writes call engine =
      (source : DataSource) × (call.source ≡ some source)
      × (write_step ops call engine ≡ kept_by call engine source)

  abbrev pub Anew : Call → (Engine → Engine) → Engine → Type 0
  Anew call between engine =
      (source : DataSource) × (call.source ≡ some source)
      × (audit ops call between engine
          ≡ (inr (made_by call (between engine) source).0, write_step ops call (between engine)))

  pub write_step-cases :
      (call : Call) (engine : Engine) → (write_step ops call engine ≡ engine) ⊎ Writes call engine
  unfolding write_step audit_anew
  write_step-cases call engine = elim (Option-cases call.source) [
    | inl missing ↦ inl (ap (λ s. write_from ops s call engine) missing)
    | inr (source, given) ↦
        let reached : write_step ops call engine
            ≡ (if call.request.project_id == "" then engine else kept_by call engine source) =
          ap (λ s. write_from ops s call engine) given in
        elim (Bool-cases (call.request.project_id == "")) [
          | inl blank ↦
              inl (reached ∙ ap (λ b. if b then engine else kept_by call engine source) blank)
          | inr named ↦ inr (
            source,
            given,
            reached ∙ ap (λ b. if b then engine else kept_by call engine source) named,
          )
        ]
  ]

  write_step-named :
      (call : Call) (source : DataSource) (engine : Engine)
      → call.source ≡ some source
      → (call.request.project_id == "") ≡ false
      → write_step ops call engine ≡ (audit_anew ops source call engine).1
  unfolding write_step
  write_step-named call source engine given named =
      ap (λ s. write_from ops s call engine) given
      ∙ ap (λ b. if b then engine else (audit_anew ops source call engine).1) named

  pub audit-cases :
      (call : Call) (between : Engine → Engine) (engine : Engine)
      → Refused call between engine ⊎ (FromCache call between engine ⊎ Anew call between engine)
  unfolding audit audit_anew look
  audit-cases call between engine = elim (Option-cases call.source) [
    | inl missing ↦ inl (
      "securityaudit: data source is required",
      ap (λ s. audit_from ops s call between engine) missing,
    )
    | inr (source, given) ↦
        let found = look call.request call.now engine in
        let reached : audit ops call between engine ≡ (
            if call.request.project_id == ""
            then (inl "securityaudit: project_id is required", engine)
            else or_anew ops found source call between engine) =
          ap (λ s. audit_from ops s call between engine) given in
        let guarded : Bool → (String ⊎ SecurityAuditReport) × Engine = λ b.
          if b
          then (inl "securityaudit: project_id is required", engine)
          else or_anew ops found source call between engine in
        elim (Bool-cases (call.request.project_id == "")) [
          | inl blank ↦ inl ("securityaudit: project_id is required", reached ∙ ap guarded blank)
          | inr named ↦
              elim (live-cases call.request.refresh call.now
                (lookup call.request.project_id engine.cache)) [
                  | inl missed ↦ inr (
                      inr (
                        source,
                        given,
                        reached
                            ∙ ap guarded named
                            ∙ ap (λ o. or_anew ops o source call between engine) missed
                            ∙ ap (λ e. (inr (made_by call (between engine) source).0, e))
                                (sym (write_step-named call source (between engine) given named)),
                      ))
                  | inr (cached, there, alive, reads, hit) ↦ inr (
                      inl (
                        cached,
                        there,
                        alive,
                        reads,
                        reached
                            ∙ ap guarded named
                            ∙ ap (λ o. or_anew ops o source call between engine) hit,
                      ))
                ]
        ]
  ]
