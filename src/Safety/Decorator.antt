-- ===== src/Safety/Decorator.antt =====
-- The three mutation methods of internal/safety/decorator.go. The wrapped service is a parameter: a
-- method of it takes the state of the cloud behind it, and returns a response, an error or none,
-- and the next state. The two clock readings and the new plan id of one call are its `Env`.
-- The audit log is not modelled. `fmt.Errorf` with `%w` keeps what it wraps.
pub mod Scale
pub mod Traffic
pub mod Export
use aura_tracker_gcp.Prelude.{ℕ, String, Option, none, some, [], ◌∷◌}
use aura_tracker_gcp.Message.{ℤ, pos, Message, text, quoted, duration}
use aura_tracker_gcp.Safety.Store.{PlanStore, PutError, plan_ttl}
use aura_tracker_gcp.Safety.Requests.{
  ScaleDeploymentRequest, ScaleDeploymentResponse, UpdateTrafficRequest, UpdateTrafficResponse,
  ExportRecommendationsRequest, ExportRecommendationsResponse,
}

pub record ScaleDeploymentPlan : Type 0 where
  pub original_request : ScaleDeploymentRequest
  pub dry_run_response : ScaleDeploymentResponse

pub record UpdateTrafficPlan : Type 0 where
  pub original_request : UpdateTrafficRequest
  pub dry_run_response : UpdateTrafficResponse

pub record ExportRecommendationsPlan : Type 0 where
  pub original_request : ExportRecommendationsRequest
  pub dry_run_response : ExportRecommendationsResponse

-- What the `any` of a plan entry holds.
pub data Plan : Type 0 where
  scale_plan : ScaleDeploymentPlan → Plan
  traffic_plan : UpdateTrafficPlan → Plan
  export_plan : ExportRecommendationsPlan → Plan

pub data Error (E : Type 0) : Type 0 where
  confirmation_required : String → Message → Error E
  not_stored : String → PutError → Error E
  wrong_plan_type : String → Error E
  inner_error : E → Error E

-- The mutations of the wrapped ports.GCPService, over its states `W` and its errors `E`.
pub record Service (W E : Type 0) : Type 0 where
  pub scale_deployment : ScaleDeploymentRequest → W → (ScaleDeploymentResponse × Option E) × W
  pub update_traffic : UpdateTrafficRequest → W → (UpdateTrafficResponse × Option E) × W
  pub export_recommendations :
      ExportRecommendationsRequest → W → (ExportRecommendationsResponse × Option E) × W

pub record State (W : Type 0) : Type 0 where
  pub store : PlanStore Plan
  pub cloud : W

-- uuid.New() and the readings of the clock in the first and the second method of the store.
pub record Env : Type 0 where
  pub plan_id : String
  pub first : ℕ
  pub second : ℕ

abbrev pub Reply : Type 0 → Type 0 → Type 0 → Type 0
Reply R E W = (R × Option (Error E)) × State W

abbrev pub wrap : {E : Type 0} → Option E → Option (Error E)
wrap none = none
wrap (some e) = some (inner_error e)

-- The rest of a method's messages, which is the same in all three.
abbrev pub plan_not_found : String → Message
plan_not_found id =
    text "plan_id "
    ∷ quoted id
    ∷ text " not found or expired (TTL="
    ∷ duration (pos plan_ttl)
    ∷ text "). Run with dry_run=true first."
    ∷ []

abbrev pub two_steps : String → String → String → Message
two_steps step_one step_two end =
    text "mutations require two-step confirmation. "
    ∷ text step_one
    ∷ text step_two
    ∷ duration (pos plan_ttl)
    ∷ text end
    ∷ []

abbrev pub confirm_within : String → ℤ → Message
confirm_within id ttl =
    text "Confirm with confirm_plan_id="
    ∷ quoted id
    ∷ text " within "
    ∷ duration ttl
    ∷ text "."
    ∷ []
