-- ===== src/SecurityAudit/Engine/Fresh.antt =====
-- Which report an audit returns, whatever other audits have written before it and meanwhile.
use Prim.Native.String.{String}
use aura_tracker_gcp.Prelude.{
  ℕ, ◌+◌, ◌≤◌, ◌<◌, false, Option, none, some, List, [], ◌∷◌, ◌≡◌, refl, sym, ◌∙◌, subst, ap, arith,
  string_eq, ltb, Member, ◌⊎◌, inl, inr,
}
use aura_tracker_gcp.GoMap.{lookup}
use aura_tracker_gcp.SecurityAudit.Report.{SecurityAuditReport}
use aura_tracker_gcp.SecurityAudit.Suppressions.{Suppression}
use aura_tracker_gcp.SecurityAudit.Suppressions.Config.{Config}
use aura_tracker_gcp.SecurityAudit.Engine.Cases.{
  lookup-stored, inr_same, no_report, keep-suppressions, keep-cache, made_by, kept_by,
  write_step-cases, audit-cases,
}
use aura_tracker_gcp.SecurityAudit.Engine.{
  new, DataSource, Engine, CachedReport, Call, AuditOps, cache_ttl, earlier, expiry, fresh, audit,
  write_step,
}

module _ {F : Type 0} (ops : AuditOps F) where
  -- The engine after the calls have written, the last first. What audits read changes nothing.
  unfoldable pub after : List Call → Engine → Engine
  after [] engine = engine
  after (call ∷ earlier_calls) engine = write_step ops call (after earlier_calls engine)

  -- The call makes the report, which may be kept until the deadline.
  abbrev pub Makes : List Suppression → Call → String → SecurityAuditReport → ℕ → Type 0
  Makes suppressions call project_id report deadline =
      (source : DataSource) × (call.source ≡ some source)
      × (call.request.project_id ≡ project_id)
      × (fresh ops call.schedule source suppressions call.now project_id ≡ (report, deadline))

  -- Every entry of the cache was made by an earlier call on its project.
  pub record IsBacked (calls : List Call) (engine : Engine) : Type 0 where
    pub backed :
        (project_id : String) (cached : CachedReport)
        → lookup project_id engine.cache ≡ some cached
        → (call : Call) × Member call calls
          × Makes engine.suppressions call project_id cached.report cached.expires_at

  keep-IsBacked :
      (calls : List Call) (call : Call) (engine : Engine) (source : DataSource)
      → call.source ≡ some source
      → IsBacked calls engine
      → IsBacked (call ∷ calls) (kept_by ops call engine source)
  keep-IsBacked calls call engine source given b = record {
    backed = λ project_id cached h.
        let made = made_by ops call engine source in
        let same = keep-suppressions ops call.now call.request.project_id made engine in
        subst
          (λ s.
            (c : Call) × Member c (call ∷ calls)
            × Makes s c project_id cached.report cached.expires_at)
          (sym same)
          (elim (lookup-stored (ltb call.now made.1) call.request.project_id project_id
            (record { report = made.0; expires_at = made.1 }) cached engine.cache
            (ap (lookup project_id)
                (sym (keep-cache ops call.now call.request.project_id made engine))
              ∙ h)) [
                | inl (named, is) ↦ (
                  call,
                  inl refl,
                  (
                    source,
                    given,
                    named,
                    subst
                        (λ p.
                          fresh ops call.schedule source engine.suppressions call.now p
                          ≡ (cached.report, cached.expires_at))
                        named (ap (λ (c : CachedReport). (c.report, c.expires_at)) (sym is)),
                  ),
                )
                | inr old ↦
                    let (c, there, makes) = b.backed project_id cached old in (c, inr there, makes)
              ]);
  }

  later-IsBacked :
      (calls : List Call) (call : Call) (engine : Engine)
      → IsBacked calls engine
      → IsBacked (call ∷ calls) engine
  later-IsBacked calls call engine b = record {
    backed = λ project_id cached h.
        let (c, there, makes) = b.backed project_id cached h in (c, inr there, makes);
  }

  write_step-IsBacked :
      (calls : List Call) (call : Call) (engine : Engine)
      → IsBacked calls engine
      → IsBacked (call ∷ calls) (write_step ops call engine)
  write_step-IsBacked calls call engine b = elim (write_step-cases ops call engine) [
    | inl same ↦ subst (IsBacked (call ∷ calls)) (sym same) (later-IsBacked calls call engine b)
    | inr (source, given, writes) ↦
        subst (IsBacked (call ∷ calls)) (sym writes)
          (keep-IsBacked calls call engine source given b)
  ]

  write_step-suppressions :
      (call : Call) (engine : Engine)
      → (write_step ops call engine).suppressions ≡ engine.suppressions
  write_step-suppressions call engine = elim (write_step-cases ops call engine) [
    | inl same ↦ ap (λ e. e.suppressions) same
    | inr (source, given, writes) ↦
        ap (λ e. e.suppressions) writes
        ∙ keep-suppressions ops call.now call.request.project_id (made_by ops call engine source)
            engine
  ]

  after-suppressions :
      (calls : List Call) (engine : Engine)
      → (after calls engine).suppressions ≡ engine.suppressions
  unfolding after
  after-suppressions [] engine = refl
  after-suppressions (call ∷ earlier_calls) engine =
      write_step-suppressions call (after earlier_calls engine)
      ∙ after-suppressions earlier_calls engine

  after-IsBacked : (calls : List Call) (config : Config) → IsBacked calls (after calls (new config))
  unfolding after lookup new
  after-IsBacked [] config = record { backed = λ project_id cached h. ground arith }
  after-IsBacked (call ∷ earlier_calls) config =
      write_step-IsBacked earlier_calls call (after earlier_calls (new config))
        (after-IsBacked earlier_calls config)

  earlier-le : (n : ℕ) (retry : Option ℕ) → earlier n retry ≤ n
  earlier-le n none = omega arith
  earlier-le n (some retry_at) = ground arith

  Makes-deadline-le :
      (suppressions : List Suppression) (call : Call) (project_id : String)
      (report : SecurityAuditReport) (deadline : ℕ)
      → Makes suppressions call project_id report deadline
      → deadline ≤ call.now + cache_ttl
  unfolding fresh expiry
  Makes-deadline-le suppressions call project_id report deadline (source, given, named, made) =
      subst (λ d. d ≤ call.now + cache_ttl) (ap (λ (p : SecurityAuditReport × ℕ). p.1) made)
        (earlier-le _ _)

  -- The report was made in this very call, from what the source answers now.
  abbrev pub MadeNow : List Suppression → Call → SecurityAuditReport → Type 0
  MadeNow suppressions call report =
      (source : DataSource) × (call.source ≡ some source)
      × (report ≡ (fresh ops call.schedule source suppressions call.now call.request.project_id).0)

  -- The report was made by an earlier call on the project, less than five minutes ago.
  abbrev pub MadeBefore : List Suppression → List Call → Call → SecurityAuditReport → Type 0
  MadeBefore suppressions calls call report =
      (first : Call) × (deadline : ℕ) × Member first calls
      × (call.request.refresh ≡ false)
      × (call.now < deadline)
      × (deadline ≤ first.now + cache_ttl)
      × Makes suppressions first call.request.project_id report deadline

  -- A report that an audit returns, after any writings of audits with sources that answer each in its
  -- own way, is either made in that call from what its own source answers, and then written after
  -- whatever others have written meanwhile; or, if the call does not ask for a refresh, it was made
  -- by an earlier call on the same project whose deadline has not passed, which is at most five
  -- minutes after that call, and the engine stays as it is.
  pub audit-MadeBefore :
      (config : Config) (calls others : List Call) (call : Call) (report : SecurityAuditReport)
      → (audit ops call (after others) (after calls (new config))).0 ≡ inr report
      → let before = after calls (new config) in
        let engine = (audit ops call (after others) before).1 in
        (MadeNow config.suppressions call report × (engine ≡ after (call ∷ others) before))
        ⊎ (MadeBefore config.suppressions calls call report × (engine ≡ before))
  unfolding new after
  audit-MadeBefore config calls others call report returned =
      let before = after calls (new config) in
      let kept = after-suppressions calls (new config) in
      let kept_now = after-suppressions others before ∙ kept in
      elim (audit-cases ops call (after others) before) [
        | inl (message, gives) ↦
            let absurd = no_report message report (sym (ap (λ r. r.0) gives) ∙ returned) in
            ground arith
        | inr (inl (cached, there, alive, reads, gives)) ↦
            let same : cached.report ≡ report =
              inr_same _ _ (sym (ap (λ r. r.0) gives) ∙ returned) in
            let (first, in_calls, makes) =
              (after-IsBacked calls config).backed call.request.project_id cached there in
            let makes_report =
              subst (λ s. Makes s first call.request.project_id report cached.expires_at) kept
                (subst
                  (λ r. Makes before.suppressions first call.request.project_id r cached.expires_at)
                  same makes) in
            inr (
              (
                first,
                cached.expires_at,
                in_calls,
                reads,
                alive,
                Makes-deadline-le config.suppressions first call.request.project_id report
                    cached.expires_at makes_report,
                makes_report,
              ),
              ap (λ r. r.1) gives,
            )
        | inr (inr (source, given, gives)) ↦
            let same : (made_by ops call (after others before) source).0 ≡ report =
              inr_same _ _ (sym (ap (λ r. r.0) gives) ∙ returned) in
            inl (
              (
                source,
                given,
                sym same
                    ∙ ap
                        (λ s. (fresh ops call.schedule source s call.now call.request.project_id).0)
                        kept_now,
              ),
              ap (λ r. r.1) gives,
            )
      ]
