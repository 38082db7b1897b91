-- ===== src/Safety/Serve/Effect.antt =====
-- What one call does to the plan store.
use aura_tracker_gcp.Prelude.{
  String, Bool, true, false, none, arith, ◌≡◌, inl, inr, Option-cases, Bool-cases, ◌==◌, string_eq,
}
use aura_tracker_gcp.Safety.Caller.{mutation_owner}
use aura_tracker_gcp.Safety.Store.{PlanStore, put_scoped, claim, finish}
use aura_tracker_gcp.Safety.Requests.{
  ScaleDeploymentRequest, UpdateTrafficRequest, ExportRecommendationsRequest,
  ScaleDeploymentResponse, UpdateTrafficResponse, ExportRecommendationsResponse,
}
use aura_tracker_gcp.Safety.Decorator.{Plan, scale_plan, traffic_plan, export_plan, Service, State}
use aura_tracker_gcp.Safety.Decorator.Scale.{scale_deployment, scale_target, scale_execution}
use aura_tracker_gcp.Safety.Decorator.Traffic.{update_traffic, traffic_target, traffic_execution}
use aura_tracker_gcp.Safety.Decorator.Export.{
  export_recommendations_to_bq, export_target, export_execution,
}
use aura_tracker_gcp.Safety.Serve.{
  Mutation, scale, traffic, export, confirmed_id, kind_of, Event, serve,
}

abbrev pub target_of : Mutation → String
target_of (scale req) = scale_target req
target_of (traffic req) = traffic_target req
target_of (export req) = export_target req

module _ {W E : Type 0} (svc : Service W E) where
  -- The mutation is a dry run, the service answers it with no error and with a change to make, and
  -- the plan is the request with that answer.
  pub data Previews (w : W) : Mutation → Plan → Type 0 where
    scales :
        (req : ScaleDeploymentRequest) (resp : ScaleDeploymentResponse)
        → req.dry_run ≡ true
        → (svc.scale_deployment req w).0 ≡ (resp, none)
        → resp.no_change_needed ≡ false
        → Previews w
            (scale req)
            (scale_plan (record { original_request = req; dry_run_response = resp }))
    routes :
        (req : UpdateTrafficRequest) (resp : UpdateTrafficResponse)
        → req.dry_run ≡ true
        → (svc.update_traffic req w).0 ≡ (resp, none)
        → resp.no_change_needed ≡ false
        → Previews w
            (traffic req)
            (traffic_plan (record { original_request = req; dry_run_response = resp }))
    exports :
        (req : ExportRecommendationsRequest) (resp : ExportRecommendationsResponse)
        → req.dry_run ≡ true
        → (svc.export_recommendations req w).0 ≡ (resp, none)
        → Previews w
            (export req)
            (export_plan (record { original_request = req; dry_run_response = resp }))

  abbrev pub claim_step : Event → State W → PlanStore Plan
  claim_step (ctx, env, m) st =
      (claim (confirmed_id m) (mutation_owner ctx) (kind_of m) env.first st.store).1

  -- One call stores one previewed plan, or claims, or claims and finishes, or does nothing.
  pub data Effect (c : Event) (st : State W) (after : PlanStore Plan) : Type 0 where
    untouched : after ≡ st.store → Effect c st after
    stored :
        (plan : Plan)
        → Previews st.cloud c.2 plan
        → after
          ≡ (put_scoped c.1.plan_id
              (mutation_owner c.0)
              (target_of c.2)
              (kind_of c.2)
              plan
              c.1.first
              st.store).1
        → Effect c st after
    claimed : after ≡ claim_step c st → Effect c st after
    finished :
        (success : Bool)
        → after ≡ finish (confirmed_id c.2) success c.1.second (claim_step c st)
        → Effect c st after

  pub serve-Effect : (c : Event) (st : State W) → Effect c st (serve svc c st).store
  unfolding serve scale_deployment update_traffic export_recommendations_to_bq
  serve-Effect (ctx, env, scale req) st = elim (Bool-cases req.dry_run) [
    | inl dry ↦ elim (Option-cases (svc.scale_deployment req st.cloud).0.1) [
      | inl fine ↦ elim (Bool-cases (svc.scale_deployment req st.cloud).0.0.no_change_needed) [
        | inl same ↦ untouched (ground arith)
        | inr change ↦
            stored
              (scale_plan (record {
                original_request = req;
                dry_run_response = (svc.scale_deployment req st.cloud).0.0;
              }))
              (scales req (svc.scale_deployment req st.cloud).0.0 dry (ground arith) change)
              (ground arith)
      ]
      | inr (e, failed) ↦ untouched (ground arith)
    ]
    | inr confirm ↦ elim (Bool-cases (req.confirm_plan_id == "")) [
      | inl blank ↦ untouched (ground arith)
      | inr given ↦
          let r =
            claim req.confirm_plan_id (mutation_owner ctx) (kind_of (scale req)) env.first
              st.store in
          elim (Option-cases r.0) [
            | inl refused ↦ claimed (ground arith)
            | inr (scale_plan plan, ok) ↦
                elim (Option-cases (svc.scale_deployment (scale_execution plan) st.cloud).0.1) [
                  | inl fine ↦ finished true (ground arith)
                  | inr (e, failed) ↦ finished false (ground arith)
                ]
            | inr (traffic_plan plan, ok) ↦ finished false (ground arith)
            | inr (export_plan plan, ok) ↦ finished false (ground arith)
          ]
    ]
  ]
  serve-Effect (ctx, env, traffic req) st = elim (Bool-cases req.dry_run) [
    | inl dry ↦ elim (Option-cases (svc.update_traffic req st.cloud).0.1) [
      | inl fine ↦ elim (Bool-cases (svc.update_traffic req st.cloud).0.0.no_change_needed) [
        | inl same ↦ untouched (ground arith)
        | inr change ↦
            stored
              (traffic_plan (record {
                original_request = req;
                dry_run_response = (svc.update_traffic req st.cloud).0.0;
              }))
              (routes req (svc.update_traffic req st.cloud).0.0 dry (ground arith) change)
              (ground arith)
      ]
      | inr (e, failed) ↦ untouched (ground arith)
    ]
    | inr confirm ↦ elim (Bool-cases (req.confirm_plan_id == "")) [
      | inl blank ↦ untouched (ground arith)
      | inr given ↦
          let r =
            claim req.confirm_plan_id (mutation_owner ctx) (kind_of (traffic req)) env.first
              st.store in
          elim (Option-cases r.0) [
            | inl refused ↦ claimed (ground arith)
            | inr (scale_plan plan, ok) ↦ finished false (ground arith)
            | inr (traffic_plan plan, ok) ↦
                elim (Option-cases (svc.update_traffic (traffic_execution plan) st.cloud).0.1) [
                  | inl fine ↦ finished true (ground arith)
                  | inr (e, failed) ↦ finished false (ground arith)
                ]
            | inr (export_plan plan, ok) ↦ finished false (ground arith)
          ]
    ]
  ]
  serve-Effect (ctx, env, export req) st = elim (Bool-cases req.dry_run) [
    | inl dry ↦ elim (Option-cases (svc.export_recommendations req st.cloud).0.1) [
      | inl fine ↦
          stored
            (export_plan (record {
              original_request = req;
              dry_run_response = (svc.export_recommendations req st.cloud).0.0;
            }))
            (exports req (svc.export_recommendations req st.cloud).0.0 dry (ground arith))
            (ground arith)
      | inr (e, failed) ↦ untouched (ground arith)
    ]
    | inr confirm ↦ elim (Bool-cases (req.confirm_plan_id == "")) [
      | inl blank ↦ untouched (ground arith)
      | inr given ↦
          let r =
            claim req.confirm_plan_id (mutation_owner ctx) (kind_of (export req)) env.first
              st.store in
          elim (Option-cases r.0) [
            | inl refused ↦ claimed (ground arith)
            | inr (scale_plan plan, ok) ↦ finished false (ground arith)
            | inr (traffic_plan plan, ok) ↦ finished false (ground arith)
            | inr (export_plan plan, ok) ↦
                elim (Option-cases
                  (svc.export_recommendations (export_execution req.confirm_plan_id plan)
                    st.cloud).0.1) [
                      | inl fine ↦ finished true (ground arith)
                      | inr (e, failed) ↦ finished false (ground arith)
                    ]
          ]
    ]
  ]
