-- ===== src/Safety/Serve/Claimed.antt =====
-- A call that is no dry run reaches the cloud only with the request of a plan that it has claimed.
use aura_tracker_gcp.Prelude.{
  false, Option, some, arith, ◌≡◌, ◌≢◌, ◌⊎◌, inl, inr, Option-cases, Bool-cases, ◌==◌, string_eq,
}
use aura_tracker_gcp.Safety.Caller.{mutation_owner}
use aura_tracker_gcp.Safety.Store.{claim}
use aura_tracker_gcp.Safety.Decorator.{Plan, scale_plan, traffic_plan, export_plan, Service, State}
use aura_tracker_gcp.Safety.Decorator.Scale.{scale_deployment}
use aura_tracker_gcp.Safety.Decorator.Traffic.{update_traffic}
use aura_tracker_gcp.Safety.Decorator.Export.{export_recommendations_to_bq}
use aura_tracker_gcp.Safety.Serve.{
  scale, traffic, export, is_dry_run, confirmed_id, kind_of, execution, Event, perform, serve,
}

module _ {W E : Type 0} (svc : Service W E) where
  abbrev pub claimed : Event → State W → Option Plan
  claimed (ctx, env, m) st =
      (claim (confirmed_id m) (mutation_owner ctx) (kind_of m) env.first st.store).0

  -- Without a claimed plan a call that is no dry run leaves the cloud as it is; with one, what it
  -- does to the cloud is the plan's own request, whatever else the call says.
  pub cloud-serve :
      (c : Event) (st : State W)
      → is_dry_run c.2 ≡ false
      → ((serve svc c st).cloud ≡ st.cloud)
        ⊎ ((plan : Plan) × (confirmed_id c.2 ≢ "")
            × (claimed c st ≡ some plan)
            × ((serve svc c st).cloud ≡ perform svc (execution (confirmed_id c.2) plan) st.cloud))
  unfolding serve scale_deployment update_traffic export_recommendations_to_bq
  cloud-serve (ctx, env, scale req) st h = elim (Bool-cases (req.confirm_plan_id == "")) [
    | inl blank ↦ inl (ground arith)
    | inr given ↦ elim (Option-cases (claimed (ctx, env, scale req) st)) [
      | inl refused ↦ inl (ground arith)
      | inr (scale_plan plan, ok) ↦ inr (
        scale_plan plan,
        λ e. ground (arith, string_eq.equals_iff req.confirm_plan_id ""),
        ok,
        ground arith,
      )
      | inr (traffic_plan plan, ok) ↦ inl (ground arith)
      | inr (export_plan plan, ok) ↦ inl (ground arith)
    ]
  ]
  cloud-serve (ctx, env, traffic req) st h = elim (Bool-cases (req.confirm_plan_id == "")) [
    | inl blank ↦ inl (ground arith)
    | inr given ↦ elim (Option-cases (claimed (ctx, env, traffic req) st)) [
      | inl refused ↦ inl (ground arith)
      | inr (scale_plan plan, ok) ↦ inl (ground arith)
      | inr (traffic_plan plan, ok) ↦ inr (
        traffic_plan plan,
        λ e. ground (arith, string_eq.equals_iff req.confirm_plan_id ""),
        ok,
        ground arith,
      )
      | inr (export_plan plan, ok) ↦ inl (ground arith)
    ]
  ]
  cloud-serve (ctx, env, export req) st h = elim (Bool-cases (req.confirm_plan_id == "")) [
    | inl blank ↦ inl (ground arith)
    | inr given ↦ elim (Option-cases (claimed (ctx, env, export req) st)) [
      | inl refused ↦ inl (ground arith)
      | inr (scale_plan plan, ok) ↦ inl (ground arith)
      | inr (traffic_plan plan, ok) ↦ inl (ground arith)
      | inr (export_plan plan, ok) ↦ inr (
        export_plan plan,
        λ e. ground (arith, string_eq.equals_iff req.confirm_plan_id ""),
        ok,
        ground arith,
      )
    ]
  ]
