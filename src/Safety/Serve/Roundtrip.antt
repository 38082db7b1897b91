-- ===== src/Safety/Serve/Roundtrip.antt =====
-- A preview can be confirmed, once if the execution succeeds, and again if it fails.
use aura_tracker_gcp.Prelude.{
  ℕ, ◌+◌, ◌≤◌, ◌<◌, String, Bool, true, false, Option, none, some, arith, ◌≡◌, ◌≢◌, refl, sym,
  subst, ◌∙◌, string_eq, ◌==◌, if◌then◌else◌, length,
}
use aura_tracker_gcp.GoMap.{length-delete_where-le}
use aura_tracker_gcp.Safety.Caller.{mutation_owner}
use aura_tracker_gcp.Safety.Store.{
  PlanKind, kind_eq, PlanEntry, PlanStore, plan_ttl, max_pending_plans,
  scale_deployment as scale_kind, update_traffic as traffic_kind,
  export_recommendations as export_kind, new_entry, put_scoped, purge_expired, claim, finish,
  expired,
}
use aura_tracker_gcp.Safety.Store.Lookup.{entry_at, entry-put_scoped}
use aura_tracker_gcp.Safety.Store.Invariant.{IsBounded, put_scoped-IsBounded}
use aura_tracker_gcp.Safety.Store.Claims.{claim_iff}
use aura_tracker_gcp.Safety.Store.Settle.{claim_after_finish}
use aura_tracker_gcp.Safety.Decorator.{Plan, scale_plan, traffic_plan, export_plan, Service, State}
use aura_tracker_gcp.Safety.Decorator.Scale.{scale_deployment}
use aura_tracker_gcp.Safety.Decorator.Traffic.{update_traffic}
use aura_tracker_gcp.Safety.Decorator.Export.{export_recommendations_to_bq}
use aura_tracker_gcp.Safety.Serve.{
  Mutation, scale, traffic, export, is_dry_run, confirmed_id, kind_of, execution, Event, perform,
  serve,
}
use aura_tracker_gcp.Safety.Serve.Claimed.{claimed}
use aura_tracker_gcp.Safety.Serve.Confirmed.{IsRun, execution-IsRun}
use aura_tracker_gcp.Safety.Serve.Effect.{Previews, scales, routes, exports, target_of}

abbrev pub plan_kind : Plan → PlanKind
plan_kind (scale_plan _) = scale_kind
plan_kind (traffic_plan _) = traffic_kind
plan_kind (export_plan _) = export_kind

abbrev fine : {E : Type 0} → Option E → Bool
fine none = true
fine (some _) = false

-- The second call confirms, for the plan id, as the owner and for the kind of the first.
pub record Confirms (c : Event) (m : Mutation) (id owner : String) : Type 0 where
  pub wet : is_dry_run c.2 ≡ false
  pub named : confirmed_id c.2 ≢ ""
  pub same_id : confirmed_id c.2 ≡ id
  pub same_owner : mutation_owner c.0 ≡ owner
  pub same_kind : kind_of c.2 ≡ kind_of m

module _ {W E : Type 0} (svc : Service W E) where
  -- The wrapped service executes the request with no error.
  abbrev pub succeeds : Mutation → W → Bool
  succeeds (scale req) w = fine (svc.scale_deployment req w).0.1
  succeeds (traffic req) w = fine (svc.update_traffic req w).0.1
  succeeds (export req) w = fine (svc.export_recommendations req w).0.1

  dry-serve :
      (c : Event) (st : State W) (plan : Plan)
      → Previews svc st.cloud c.2 plan
      → (serve svc c st).store
        ≡ (put_scoped c.1.plan_id
            (mutation_owner c.0)
            (target_of c.2)
            (kind_of c.2)
            plan
            c.1.first
            st.store).1
  unfolding serve scale_deployment update_traffic export_recommendations_to_bq
  dry-serve (ctx, env, scale req) st plan (scales _ resp dry answer change) = ground arith
  dry-serve (ctx, env, traffic req) st plan (routes _ resp dry answer change) = ground arith
  dry-serve (ctx, env, export req) st plan (exports _ resp dry answer) = ground arith

  confirm-serve :
      (c : Event) (st : State W) (plan : Plan)
      → is_dry_run c.2 ≡ false
      → confirmed_id c.2 ≢ ""
      → claimed svc c st ≡ some plan
      → plan_kind plan ≡ kind_of c.2
      → let (ctx, env, m) = c in
        let id = confirmed_id m in
        ((serve svc c st).cloud ≡ perform svc (execution id plan) st.cloud)
        × ((serve svc c st).store
            ≡ finish id
                (succeeds (execution id plan) st.cloud)
                env.second
                (claim id (mutation_owner ctx) (kind_of m) env.first st.store).1)
  unfolding serve scale_deployment update_traffic export_recommendations_to_bq
  confirm-serve (ctx, env, scale req) st (scale_plan plan) wet named ok k =
      ground (arith, string_eq.equals_iff req.confirm_plan_id "")
  confirm-serve (ctx, env, traffic req) st (traffic_plan plan) wet named ok k =
      ground (arith, string_eq.equals_iff req.confirm_plan_id "")
  confirm-serve (ctx, env, export req) st (export_plan plan) wet named ok k =
      ground (arith, string_eq.equals_iff req.confirm_plan_id "")
  confirm-serve (ctx, env, _) st _ wet named ok k = cc

  Previews-kind :
      (w : W) (m : Mutation) (plan : Plan) → Previews svc w m plan → plan_kind plan ≡ kind_of m
  Previews-kind w m plan (scales _ resp dry answer change) = refl
  Previews-kind w m plan (routes _ resp dry answer change) = refl
  Previews-kind w m plan (exports _ resp dry answer) = refl

  kind_of-known : (m : Mutation) → (kind_of m == PlanKind.unknown) ≡ false
  kind_of-known (scale req) = refl
  kind_of-known (traffic req) = refl
  kind_of-known (export req) = refl

  put_scoped_fits :
      (s : PlanStore Plan) (id owner target : String) (m : Mutation) (plan : Plan) (now : ℕ)
      → length s.entries < max_pending_plans
      → (put_scoped id owner target (kind_of m) plan now s).0 ≡ none
  unfolding put_scoped purge_expired
  put_scoped_fits s id owner target m plan now room =
      ground (arith, kind_of-known m, length-delete_where-le (expired now) s.entries)

  -- A preview that the service answers can be confirmed: from a store within its invariant and with
  -- room, after a dry run that the service answers with no error and, for scaling and traffic, with
  -- a change to make, the same owner confirming its plan id within `plan_ttl` makes the service
  -- execute the request of the dry run, whatever else the second call says. Every field of that
  -- request is as first asked but for the dry run, which is off, the plan id, which is blank, and
  -- what ties it to the preview: the count or the version that the service answered to the dry run,
  -- or the plan id as the id of the execution.
  pub confirm_executes_preview :
      (st : State W) (c c' : Event) (plan : Plan)
      → IsBounded st.store
      → length st.store.entries < max_pending_plans
      → Previews svc st.cloud c.2 plan
      → Confirms c' c.2 c.1.plan_id (mutation_owner c.0)
      → c'.1.first ≤ c.1.first + plan_ttl
      → let st' = serve svc c st in
        (run : Mutation) × IsRun svc st.cloud c.1.plan_id c.2 run
        × ((serve svc c' st').cloud ≡ perform svc run st'.cloud)
  confirm_executes_preview st (ctx, env, m) (ctx', env', m') plan v room p k soon =
      let s = st.store in
      let owner = mutation_owner ctx in
      let st' = serve svc (ctx, env, m) st in
      let put = put_scoped env.plan_id owner (target_of m) (kind_of m) plan env.first s in
      let e = new_entry env.first owner (target_of m) (kind_of m) plan in
      let ok = put_scoped_fits s env.plan_id owner (target_of m) m plan env.first room in
      let here : entry_at env.plan_id put.1 ≡ some e = ground (
        arith,
        entry-put_scoped s v.distinct env.plan_id owner (target_of m) (kind_of m) plan env.first
            env.plan_id ok,
        string_eq.equals_iff env.plan_id env.plan_id,
      ) in
      let stored = dry-serve (ctx, env, m) st plan p in
      let v' =
        put_scoped-IsBounded env.plan_id owner (target_of m) (kind_of m) plan env.first s v in
      let got : (claim env.plan_id owner (kind_of m) env'.first put.1).0 ≡ some plan =
        (claim_iff put.1 env.plan_id owner (kind_of m) env'.first plan v'.distinct).1 (
          e,
          here,
          soon,
          record { idle = refl; same_owner = refl; same_kind = refl; same_payload = refl },
        ) in
      let got' : (claim (confirmed_id m') (mutation_owner ctx') (kind_of m') env'.first st'.store).0
          ≡ some plan =
        cc (got, k.same_id, k.same_owner, k.same_kind, stored) in
      let done =
        confirm-serve (ctx', env', m') st' plan k.wet k.named got'
          (Previews-kind st.cloud m plan p ∙ sym k.same_kind) in
      (
        execution env.plan_id plan,
        execution-IsRun svc st.cloud env.plan_id m plan p,
        subst
            (λ id.
              (serve svc (ctx', env', m') st').cloud ≡ perform svc (execution id plan) st'.cloud)
            k.same_id done.0,
      )

  -- A confirmation settles its plan: after a call that claims a plan and makes the service execute
  -- it, both before the plan's deadline, a caller with the same owner, kind and id gets the plan
  -- again before the deadline exactly when that execution failed.
  pub confirmation_settles :
      (st : State W) (c c' : Event) (plan : Plan) (e : PlanEntry Plan)
      → IsBounded st.store
      → is_dry_run c.2 ≡ false
      → confirmed_id c.2 ≢ ""
      → entry_at (confirmed_id c.2) st.store ≡ some e
      → claimed svc c st ≡ some plan
      → plan_kind plan ≡ kind_of c.2
      → c.1.second ≤ e.expires_at
      → Confirms c' c.2 (confirmed_id c.2) (mutation_owner c.0)
      → c'.1.first ≤ e.expires_at
      → claimed svc c' (serve svc c st)
        ≡ (if succeeds (execution (confirmed_id c.2) plan) st.cloud then none else some plan)
  confirmation_settles st (ctx, env, m) (ctx', env', m') plan e v wet named here ok kind soon k
        soon' =
      let s = st.store in
      let id = confirmed_id m in
      let owner = mutation_owner ctx in
      let good = succeeds (execution id plan) st.cloud in
      let (_, stored) = confirm-serve (ctx, env, m) st plan wet named ok kind in
      let again =
        claim_after_finish s v id owner (kind_of m) env.first e here ok good env.second env'.first
          soon soon' in
      cc (again, stored, k.same_id, k.same_owner, k.same_kind)
