-- ===== src/Safety/Serve.antt =====
-- The decorator as a server: one call of one of its three mutations, by one caller, and histories
-- of such calls. Calls of concurrent callers interleave at the store's methods; here a call is one
-- step, and `Safety/Store` has the interleavings.
pub mod Claimed
pub mod Effect
pub mod Confirmed
pub mod Announced
pub mod Roundtrip
use aura_tracker_gcp.Prelude.{ℕ, String, Bool, List, [], ◌∷◌}
use aura_tracker_gcp.Safety.Caller.{Context}
use aura_tracker_gcp.Safety.Store.{
  PlanKind, scale_deployment, update_traffic, export_recommendations, new_plan_store,
}
use aura_tracker_gcp.Safety.Requests.{
  ScaleDeploymentRequest, UpdateTrafficRequest, ExportRecommendationsRequest,
}
use aura_tracker_gcp.Safety.Decorator.{
  Plan, scale_plan, traffic_plan, export_plan, Service, State, Env,
}
use aura_tracker_gcp.Safety.Decorator.Scale
use aura_tracker_gcp.Safety.Decorator.Scale.{scale_execution}
use aura_tracker_gcp.Safety.Decorator.Traffic
use aura_tracker_gcp.Safety.Decorator.Traffic.{traffic_execution}
use aura_tracker_gcp.Safety.Decorator.Export
use aura_tracker_gcp.Safety.Decorator.Export.{export_execution}

pub data Mutation : Type 0 where
  scale : ScaleDeploymentRequest → Mutation
  traffic : UpdateTrafficRequest → Mutation
  export : ExportRecommendationsRequest → Mutation

abbrev pub is_dry_run : Mutation → Bool
is_dry_run (scale req) = req.dry_run
is_dry_run (traffic req) = req.dry_run
is_dry_run (export req) = req.dry_run

abbrev pub confirmed_id : Mutation → String
confirmed_id (scale req) = req.confirm_plan_id
confirmed_id (traffic req) = req.confirm_plan_id
confirmed_id (export req) = req.confirm_plan_id

abbrev pub kind_of : Mutation → PlanKind
kind_of (scale req) = scale_deployment
kind_of (traffic req) = update_traffic
kind_of (export req) = export_recommendations

-- The request that a plan stands for, once it is confirmed under its id.
abbrev pub execution : String → Plan → Mutation
execution id (scale_plan plan) = scale (scale_execution plan)
execution id (traffic_plan plan) = traffic (traffic_execution plan)
execution id (export_plan plan) = export (export_execution id plan)

abbrev pub Event : Type 0
Event = Context × Env × Mutation

module _ {W E : Type 0} (svc : Service W E) where
  -- What the wrapped service does to the cloud.
  abbrev pub perform : Mutation → W → W
  perform (scale req) w = (svc.scale_deployment req w).1
  perform (traffic req) w = (svc.update_traffic req w).1
  perform (export req) w = (svc.export_recommendations req w).1

  unfoldable pub serve : Event → State W → State W
  serve (ctx, env, scale req) st = (Scale.scale_deployment svc ctx env req st).1
  serve (ctx, env, traffic req) st = (Traffic.update_traffic svc ctx env req st).1
  serve (ctx, env, export req) st = (Export.export_recommendations_to_bq svc ctx env req st).1

  -- The state after a history, the latest call first.
  unfoldable pub serve_all : W → List Event → State W
  serve_all w [] = record { store = new_plan_store; cloud = w }
  serve_all w (c ∷ history) = serve c (serve_all w history)
