-- ===== src/Safety/Decorator/Scale.antt =====
-- `ScaleDeployment` of internal/safety/decorator.go.
use Prim.Native.String.{◌++◌}
use aura_tracker_gcp.Prelude.{
  String, true, false, Option, none, some, [], ◌∷◌, ◌==◌, string_eq, if◌then◌else◌,
}
use aura_tracker_gcp.Message.{ℤ, Message, text, quoted, decimal, duration}
use aura_tracker_gcp.Safety.Caller.{Context, mutation_owner}
use aura_tracker_gcp.Safety.Store.{
  PlanStore, PutError, scale_deployment as scale_kind, put_scoped, claim, finish, expires_in,
}
use aura_tracker_gcp.Safety.Requests.{
  ScaleDeploymentRequest, ScaleDeploymentResponse, no_scale_response,
}
use aura_tracker_gcp.Safety.Decorator.{
  Plan, scale_plan, Error, confirmation_required, not_stored, wrong_plan_type, inner_error, Service,
  State, Env, Reply, plan_not_found, two_steps, confirm_within, ScaleDeploymentPlan,
}

abbrev op : String
op = "safety.ScaleDeployment"

unfoldable pub scale_target : ScaleDeploymentRequest → String
scale_target req =
    "gke://"
    ++ (req.project_id
        ++ ("/"
            ++ (req.location
                ++ ("/" ++ (req.cluster_name ++ ("/nodePools/" ++ req.node_pool_name))))))

-- The request that a confirmed plan is executed with.
unfoldable pub scale_execution : ScaleDeploymentPlan → ScaleDeploymentRequest
scale_execution plan = record original {
  dry_run = false;
  confirm_plan_id = "";
  expected_count = some preview.previous_count;
}
  where
    open plan use {original_request as original, dry_run_response as preview}

abbrev scale_description : ScaleDeploymentRequest → ScaleDeploymentResponse → String → ℤ → Message
scale_description req preview id ttl =
    text "DRY RUN: would resize node pool "
    ∷ quoted req.node_pool_name
    ∷ text " from "
    ∷ decimal preview.previous_count
    ∷ text " to "
    ∷ decimal req.node_count
    ∷ text " nodes. "
    ∷ confirm_within id ttl

module _ {W E : Type 0} where
  abbrev scale_refusal : Error E → State W → Reply ScaleDeploymentResponse E W
  scale_refusal e st = ((no_scale_response, some e), st)

  scale_stored :
      Env
      → ScaleDeploymentRequest
      → ScaleDeploymentResponse
      → W
      → Option PutError × PlanStore Plan
      → Reply ScaleDeploymentResponse E W
  scale_stored env req preview cloud (some e, store) =
      scale_refusal (not_stored op e) (record { store = store; cloud = cloud })
  scale_stored env req preview cloud (none, store) =
      let ttl = expires_in env.plan_id env.second store in
      (
        (
          record preview {
            plan_id = env.plan_id;
            expires_in = duration ttl ∷ [];
            description = scale_description req preview env.plan_id ttl;
          },
          none,
        ),
        record { store = store; cloud = cloud },
      )

  scale_previewed :
      Context
      → Env
      → ScaleDeploymentRequest
      → PlanStore Plan
      → (ScaleDeploymentResponse × Option E) × W
      → Reply ScaleDeploymentResponse E W
  unfolding scale_stored
  scale_previewed ctx env req store ((preview, some e), cloud) =
      ((preview, some (inner_error e)), record { store = store; cloud = cloud })
  scale_previewed ctx env req store ((preview, none), cloud) =
      if preview.no_change_needed
      then ((preview, none), record { store = store; cloud = cloud })
      else scale_stored env req preview cloud (
          put_scoped env.plan_id (mutation_owner ctx) (scale_target req) scale_kind
            (scale_plan (record { original_request = req; dry_run_response = preview })) env.first
            store)

  scale_executed :
      Env
      → String
      → PlanStore Plan
      → (ScaleDeploymentResponse × Option E) × W
      → Reply ScaleDeploymentResponse E W
  scale_executed env id store ((resp, some e), cloud) =
      scale_refusal (inner_error e)
        (record { store = finish id false env.second store; cloud = cloud })
  scale_executed env id store ((resp, none), cloud) =
      ((resp, none), record { store = finish id true env.second store; cloud = cloud })

  scale_claimed :
      Service W E
      → Env
      → String
      → W
      → Option Plan × PlanStore Plan
      → Reply ScaleDeploymentResponse E W
  unfolding scale_executed
  scale_claimed svc env id cloud (none, store) =
      scale_refusal (confirmation_required op (plan_not_found id))
        (record { store = store; cloud = cloud })
  scale_claimed svc env id cloud (some (scale_plan plan), store) =
      scale_executed env id store (svc.scale_deployment (scale_execution plan) cloud)
  scale_claimed svc env id cloud (some _, store) =
      scale_refusal (wrong_plan_type op)
        (record { store = finish id false env.second store; cloud = cloud })

  unfoldable pub scale_deployment :
      Service W E
      → Context
      → Env
      → ScaleDeploymentRequest
      → State W
      → Reply ScaleDeploymentResponse E W
  unfolding scale_previewed scale_claimed
  scale_deployment svc ctx env req st =
      if req.dry_run
      then scale_previewed ctx env req st.store (svc.scale_deployment req st.cloud)
      else if req.confirm_plan_id == ""
      then scale_refusal
          (confirmation_required op (
            two_steps
              "Step 1: call gcp_gke_scale_deployment with dry_run=true to receive a plan_id. "
              "Step 2: call again with confirm_plan_id=<plan_id> (within " ")."))
          st
      else scale_claimed svc env req.confirm_plan_id st.cloud
          (claim req.confirm_plan_id (mutation_owner ctx) scale_kind env.first st.store)
