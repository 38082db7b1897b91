-- ===== src/Safety/Serve/Confirmed.antt =====
-- The request that a confirmation executes, field by field: the previewed one, no longer a dry run and
-- without a plan id, tied to the state that the dry run saw or to its plan id.
use aura_tracker_gcp.Prelude.{String, false, some, ◌≡◌, refl, sym, ap}
use aura_tracker_gcp.Safety.Requests.{
  ScaleDeploymentRequest, UpdateTrafficRequest, ExportRecommendationsRequest,
  ScaleDeploymentResponse, UpdateTrafficResponse,
}
use aura_tracker_gcp.Safety.Decorator.{Plan, Service}
use aura_tracker_gcp.Safety.Decorator.Scale.{scale_execution}
use aura_tracker_gcp.Safety.Decorator.Traffic.{traffic_execution}
use aura_tracker_gcp.Safety.Decorator.Export.{export_execution}
use aura_tracker_gcp.Safety.Serve.{Mutation, scale, traffic, export, execution}
use aura_tracker_gcp.Safety.Serve.Effect.{Previews, scales, routes, exports}

pub record IsScaleRun (asked : ScaleDeploymentRequest) (answer : ScaleDeploymentResponse)
    (run : ScaleDeploymentRequest) : Type 0 where
  pub same_project_id : run.project_id ≡ asked.project_id
  pub same_location : run.location ≡ asked.location
  pub same_cluster_name : run.cluster_name ≡ asked.cluster_name
  pub same_node_pool_name : run.node_pool_name ≡ asked.node_pool_name
  pub same_node_count : run.node_count ≡ asked.node_count
  pub wet : run.dry_run ≡ false
  pub no_plan : run.confirm_plan_id ≡ ""
  pub counted : run.expected_count ≡ some answer.previous_count

pub record IsTrafficRun (asked : UpdateTrafficRequest) (answer : UpdateTrafficResponse)
    (run : UpdateTrafficRequest) : Type 0 where
  pub same_project_id : run.project_id ≡ asked.project_id
  pub same_region : run.region ≡ asked.region
  pub same_service_name : run.service_name ≡ asked.service_name
  pub same_traffic : run.traffic ≡ asked.traffic
  pub wet : run.dry_run ≡ false
  pub no_plan : run.confirm_plan_id ≡ ""
  pub tagged : run.expected_etag ≡ answer.state_version

pub record IsExportRun (asked : ExportRecommendationsRequest) (plan_id : String)
    (run : ExportRecommendationsRequest) : Type 0 where
  pub same_project_id : run.project_id ≡ asked.project_id
  pub same_dataset : run.dataset ≡ asked.dataset
  pub same_table : run.table ≡ asked.table
  pub wet : run.dry_run ≡ false
  pub no_plan : run.confirm_plan_id ≡ ""
  pub identified : run.execution_id ≡ plan_id

module _ {W E : Type 0} (svc : Service W E) where
  -- What the second mutation is, after a dry run of the first in the cloud `w` under the plan id.
  pub data IsRun (w : W) (plan_id : String) : Mutation → Mutation → Type 0 where
    scale_run :
        (asked run : ScaleDeploymentRequest)
        → IsScaleRun asked (svc.scale_deployment asked w).0.0 run
        → IsRun w plan_id (scale asked) (scale run)
    traffic_run :
        (asked run : UpdateTrafficRequest)
        → IsTrafficRun asked (svc.update_traffic asked w).0.0 run
        → IsRun w plan_id (traffic asked) (traffic run)
    export_run :
        (asked run : ExportRecommendationsRequest)
        → IsExportRun asked plan_id run
        → IsRun w plan_id (export asked) (export run)

  pub execution-IsRun :
      (w : W) (plan_id : String) (m : Mutation) (plan : Plan)
      → Previews svc w m plan
      → IsRun w plan_id m (execution plan_id plan)
  unfolding scale_execution traffic_execution export_execution
  execution-IsRun w plan_id m plan (scales req resp dry answer change) = scale_run req _ (record {
    same_project_id = refl;
    same_location = refl;
    same_cluster_name = refl;
    same_node_pool_name = refl;
    same_node_count = refl;
    wet = refl;
    no_plan = refl;
    counted = ap (λ r. some r.0.previous_count) (sym answer);
  })
  execution-IsRun w plan_id m plan (routes req resp dry answer change) = traffic_run req _ (record {
    same_project_id = refl;
    same_region = refl;
    same_service_name = refl;
    same_traffic = refl;
    wet = refl;
    no_plan = refl;
    tagged = ap (λ r. r.0.state_version) (sym answer);
  })
  execution-IsRun w plan_id m plan (exports req resp dry answer) = export_run req _ (record {
    same_project_id = refl;
    same_dataset = refl;
    same_table = refl;
    wet = refl;
    no_plan = refl;
    identified = refl;
  })
