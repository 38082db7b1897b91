-- ===== src/Safety/Requests.antt =====
-- The requests and responses of the three mutations: pkg/models/gke.go, pkg/models/cloudrun.go and
-- pkg/models/recommender_export.go. A pointer is an `Option`; a field that the code fills with
-- formatted text is a `Message`.
use aura_tracker_gcp.Prelude.{String, Bool, false, Option, List, []}
use aura_tracker_gcp.Message.{ℤ, pos, Message}

pub record ScaleDeploymentRequest : Type 0 where
  pub project_id : String
  pub location : String
  pub cluster_name : String
  pub node_pool_name : String
  pub node_count : ℤ
  pub dry_run : Bool
  pub confirm_plan_id : String
  pub expected_count : Option ℤ

pub record ScaleDeploymentResponse : Type 0 where
  pub dry_run : Bool
  pub node_pool_name : String
  pub previous_count : ℤ
  pub requested_count : ℤ
  pub no_change_needed : Bool
  pub description : Message
  pub plan_id : String
  pub expires_in : Message
  pub operation_name : String

pub record TrafficTarget : Type 0 where
  pub revision : String
  pub percent : ℤ
  pub tag : String

pub record UpdateTrafficRequest : Type 0 where
  pub project_id : String
  pub region : String
  pub service_name : String
  pub traffic : List TrafficTarget
  pub dry_run : Bool
  pub confirm_plan_id : String
  pub expected_etag : String

pub record UpdateTrafficResponse : Type 0 where
  pub dry_run : Bool
  pub service_name : String
  pub before : List TrafficTarget
  pub after : List TrafficTarget
  pub no_change_needed : Bool
  pub description : Message
  pub plan_id : String
  pub expires_in : Message
  pub state_version : String

pub record ExportRecommendationsRequest : Type 0 where
  pub project_id : String
  pub dataset : String
  pub table : String
  pub dry_run : Bool
  pub confirm_plan_id : String
  pub execution_id : String

pub record ExportRecommendationsResponse : Type 0 where
  pub dry_run : Bool
  pub table : String
  pub rows_planned : ℤ
  pub rows_inserted : ℤ
  pub exported_at : String
  pub description : Message
  pub plan_id : String
  pub expires_in : Message

-- The zero values that Go returns beside an error.
abbrev pub no_scale_response : ScaleDeploymentResponse
no_scale_response = record {
  dry_run = false;
  node_pool_name = "";
  previous_count = pos 0;
  requested_count = pos 0;
  no_change_needed = false;
  description = [];
  plan_id = "";
  expires_in = [];
  operation_name = "";
}

abbrev pub no_traffic_response : UpdateTrafficResponse
no_traffic_response = record {
  dry_run = false;
  service_name = "";
  before = [];
  after = [];
  no_change_needed = false;
  description = [];
  plan_id = "";
  expires_in = [];
  state_version = "";
}

abbrev pub no_export_response : ExportRecommendationsResponse
no_export_response = record {
  dry_run = false;
  table = "";
  rows_planned = pos 0;
  rows_inserted = pos 0;
  exported_at = "";
  description = [];
  plan_id = "";
  expires_in = [];
}
