-- ===== src/Safety/Decorator/Traffic.antt =====
-- `UpdateTraffic` of internal/safety/decorator.go.
use Prim.Native.String.{◌++◌}
use aura_tracker_gcp.Prelude.{
  String, true, false, Option, none, some, [], ◌∷◌, ◌==◌, string_eq, if◌then◌else◌,
}
use aura_tracker_gcp.Message.{ℤ, Message, text, quoted, duration}
use aura_tracker_gcp.Safety.Caller.{Context, mutation_owner}
use aura_tracker_gcp.Safety.Store.{
  PlanStore, PutError, update_traffic as traffic_kind, put_scoped, claim, finish, expires_in,
}
use aura_tracker_gcp.Safety.Requests.{
  UpdateTrafficRequest, UpdateTrafficResponse, no_traffic_response,
}
use aura_tracker_gcp.Safety.Decorator.{
  Plan, traffic_plan, Error, confirmation_required, not_stored, wrong_plan_type, inner_error,
  Service, State, Env, Reply, plan_not_found, two_steps, confirm_within, UpdateTrafficPlan,
}

abbrev op : String
op = "safety.UpdateTraffic"

unfoldable pub traffic_target : UpdateTrafficRequest → String
traffic_target req =
    "run://" ++ (req.project_id ++ ("/" ++ (req.region ++ ("/" ++ req.service_name))))

-- The request that a confirmed plan is executed with.
unfoldable pub traffic_execution : UpdateTrafficPlan → UpdateTrafficRequest
traffic_execution plan = record original {
  dry_run = false;
  confirm_plan_id = "";
  expected_etag = preview.state_version;
}
  where
    open plan use {original_request as original, dry_run_response as preview}

abbrev traffic_description : UpdateTrafficRequest → UpdateTrafficResponse → String → ℤ → Message
traffic_description req preview id ttl =
    text "DRY RUN: would update traffic split for service "
    ∷ quoted req.service_name
    ∷ text ". "
    ∷ confirm_within id ttl

module _ {W E : Type 0} where
  abbrev traffic_refusal : Error E → State W → Reply UpdateTrafficResponse E W
  traffic_refusal e st = ((no_traffic_response, some e), st)

  traffic_stored :
      Env
      → UpdateTrafficRequest
      → UpdateTrafficResponse
      → W
      → Option PutError × PlanStore Plan
      → Reply UpdateTrafficResponse E W
  traffic_stored env req preview cloud (some e, store) =
      traffic_refusal (not_stored op e) (record { store = store; cloud = cloud })
  traffic_stored env req preview cloud (none, store) =
      let ttl = expires_in env.plan_id env.second store in
      (
        (
          record preview {
            plan_id = env.plan_id;
            expires_in = duration ttl ∷ [];
            description = traffic_description req preview env.plan_id ttl;
          },
          none,
        ),
        record { store = store; cloud = cloud },
      )

  traffic_previewed :
      Context
      → Env
      → UpdateTrafficRequest
      → PlanStore Plan
      → (UpdateTrafficResponse × Option E) × W
      → Reply UpdateTrafficResponse E W
  unfolding traffic_stored
  traffic_previewed ctx env req store ((preview, some e), cloud) =
      ((preview, some (inner_error e)), record { store = store; cloud = cloud })
  traffic_previewed ctx env req store ((preview, none), cloud) =
      if preview.no_change_needed
      then ((preview, none), record { store = store; cloud = cloud })
      else traffic_stored env req preview cloud (
          put_scoped env.plan_id (mutation_owner ctx) (traffic_target req) traffic_kind
            (traffic_plan (record { original_request = req; dry_run_response = preview })) env.first
            store)

  traffic_executed :
      Env
      → String
      → PlanStore Plan
      → (UpdateTrafficResponse × Option E) × W
      → Reply UpdateTrafficResponse E W
  traffic_executed env id store ((resp, some e), cloud) =
      traffic_refusal (inner_error e)
        (record { store = finish id false env.second store; cloud = cloud })
  traffic_executed env id store ((resp, none), cloud) =
      ((resp, none), record { store = finish id true env.second store; cloud = cloud })

  traffic_claimed :
      Service W E
      → Env
      → String
      → W
      → Option Plan × PlanStore Plan
      → Reply UpdateTrafficResponse E W
  unfolding traffic_executed
  traffic_claimed svc env id cloud (none, store) =
      traffic_refusal (confirmation_required op (plan_not_found id))
        (record { store = store; cloud = cloud })
  traffic_claimed svc env id cloud (some (traffic_plan plan), store) =
      traffic_executed env id store (svc.update_traffic (traffic_execution plan) cloud)
  traffic_claimed svc env id cloud (some _, store) =
      traffic_refusal (wrong_plan_type op)
        (record { store = finish id false env.second store; cloud = cloud })

  unfoldable pub update_traffic :
      Service W E → Context → Env → UpdateTrafficRequest → State W → Reply UpdateTrafficResponse E W
  unfolding traffic_previewed traffic_claimed
  update_traffic svc ctx env req st =
      if req.dry_run
      then traffic_previewed ctx env req st.store (svc.update_traffic req st.cloud)
      else if req.confirm_plan_id == ""
      then traffic_refusal
          (confirmation_required op (
            two_steps
              "Step 1: call gcp_cloudrun_update_traffic with dry_run=true to receive a plan_id. "
              "Step 2: call again with confirm_plan_id=<plan_id> (within " ")."))
          st
      else traffic_claimed svc env req.confirm_plan_id st.cloud
          (claim req.confirm_plan_id (mutation_owner ctx) traffic_kind env.first st.store)
