-- ===== src/Safety/Decorator/Export.antt =====
-- `ExportRecommendationsToBQ` of internal/safety/decorator.go.
use Prim.Native.String.{◌++◌}
use aura_tracker_gcp.Prelude.{
  String, true, false, Option, none, some, [], ◌∷◌, ◌==◌, string_eq, if◌then◌else◌,
}
use aura_tracker_gcp.Message.{ℤ, Message, text, quoted, decimal, duration}
use aura_tracker_gcp.Safety.Caller.{Context, mutation_owner}
use aura_tracker_gcp.Safety.Store.{
  PlanStore, PutError, export_recommendations as export_kind, put_scoped, claim, finish, expires_in,
}
use aura_tracker_gcp.Safety.Requests.{
  ExportRecommendationsRequest, ExportRecommendationsResponse, no_export_response,
}
use aura_tracker_gcp.Safety.Decorator.{
  Plan, export_plan, Error, confirmation_required, not_stored, wrong_plan_type, inner_error,
  Service, State, Env, Reply, two_steps, confirm_within, ExportRecommendationsPlan,
}

abbrev op : String
op = "safety.ExportRecommendationsToBQ"

unfoldable pub export_target : ExportRecommendationsRequest → String
export_target req =
    "bigquery://" ++ (req.project_id ++ ("/" ++ (req.dataset ++ ("/" ++ req.table))))

-- The request that a confirmed plan is executed with.
unfoldable pub export_execution : String → ExportRecommendationsPlan → ExportRecommendationsRequest
export_execution id plan = record original {
  dry_run = false;
  confirm_plan_id = "";
  execution_id = id;
}
  where
    open plan use {original_request as original}

abbrev export_description :
    ExportRecommendationsRequest → ExportRecommendationsResponse → String → ℤ → Message
export_description req preview id ttl =
    text "DRY RUN: would export "
    ∷ decimal preview.rows_planned
    ∷ text " active recommendations to "
    ∷ quoted preview.table
    ∷ text ". "
    ∷ confirm_within id ttl

abbrev export_not_found : String → Message
export_not_found id =
    text "plan_id "
    ∷ quoted id
    ∷ text " not found, expired, in use, or owned by another caller. Run with dry_run=true first."
    ∷ []

module _ {W E : Type 0} where
  abbrev export_refusal : Error E → State W → Reply ExportRecommendationsResponse E W
  export_refusal e st = ((no_export_response, some e), st)

  export_stored :
      Env
      → ExportRecommendationsRequest
      → ExportRecommendationsResponse
      → W
      → Option PutError × PlanStore Plan
      → Reply ExportRecommendationsResponse E W
  export_stored env req preview cloud (some e, store) =
      export_refusal (not_stored op e) (record { store = store; cloud = cloud })
  export_stored env req preview cloud (none, store) =
      let ttl = expires_in env.plan_id env.second store in
      (
        (
          record preview {
            plan_id = env.plan_id;
            expires_in = duration ttl ∷ [];
            description = export_description req preview env.plan_id ttl;
          },
          none,
        ),
        record { store = store; cloud = cloud },
      )

  export_previewed :
      Context
      → Env
      → ExportRecommendationsRequest
      → PlanStore Plan
      → (ExportRecommendationsResponse × Option E) × W
      → Reply ExportRecommendationsResponse E W
  unfolding export_stored
  export_previewed ctx env req store ((preview, some e), cloud) =
      ((preview, some (inner_error e)), record { store = store; cloud = cloud })
  export_previewed ctx env req store ((preview, none), cloud) =
      export_stored env req preview cloud (
        put_scoped env.plan_id (mutation_owner ctx) (export_target req) export_kind
          (export_plan (record { original_request = req; dry_run_response = preview })) env.first
          store)

  export_executed :
      Env
      → String
      → PlanStore Plan
      → (ExportRecommendationsResponse × Option E) × W
      → Reply ExportRecommendationsResponse E W
  export_executed env id store ((resp, some e), cloud) =
      export_refusal (inner_error e)
        (record { store = finish id false env.second store; cloud = cloud })
  export_executed env id store ((resp, none), cloud) =
      ((resp, none), record { store = finish id true env.second store; cloud = cloud })

  export_claimed :
      Service W E
      → Env
      → String
      → W
      → Option Plan × PlanStore Plan
      → Reply ExportRecommendationsResponse E W
  unfolding export_executed
  export_claimed svc env id cloud (none, store) =
      export_refusal (confirmation_required op (export_not_found id))
        (record { store = store; cloud = cloud })
  export_claimed svc env id cloud (some (export_plan plan), store) =
      export_executed env id store (svc.export_recommendations (export_execution id plan) cloud)
  export_claimed svc env id cloud (some _, store) =
      export_refusal (wrong_plan_type op)
        (record { store = finish id false env.second store; cloud = cloud })

  unfoldable pub export_recommendations_to_bq :
      Service W E
      → Context
      → Env
      → ExportRecommendationsRequest
      → State W
      → Reply ExportRecommendationsResponse E W
  unfolding export_previewed export_claimed
  export_recommendations_to_bq svc ctx env req st =
      if req.dry_run
      then export_previewed ctx env req st.store (svc.export_recommendations req st.cloud)
      else if req.confirm_plan_id == ""
      then export_refusal
          (confirmation_required op (
            two_steps "Step 1: call gcp_export_recommendations_to_bq with dry_run=true. "
              "Step 2: call again with confirm_plan_id=<plan_id> within " "."))
          st
      else export_claimed svc env req.confirm_plan_id st.cloud
          (claim req.confirm_plan_id (mutation_owner ctx) export_kind env.first st.store)
