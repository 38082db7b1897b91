-- ===== src/Safety/Tests.antt =====
-- Two callers, a cloud with one node pool, and runs of the confirmation protocol on them.
use aura_tracker_gcp.Prelude.{
  ℕ, ◌+◌, ◌≤◌, String, Bool, true, false, none, some, List, [], ◌∷◌, arith, ◌≡◌, ◌≢◌, ◌↔◌, refl,
  ◌⊎◌, length, ◌<◌, string_eq, if◌then◌else◌,
}
use aura_tracker_gcp.GoMap.{lookup, insert, delete, delete_where}
use aura_tracker_gcp.Message.{ℤ, pos}
use aura_tracker_gcp.Safety.Caller.{
  Context, mutation_owner, identity_key, actor, session_id, principal_from_context,
}
use aura_tracker_gcp.Safety.Caller.Owner.{has_nul, IsClean, SameIdentity, mutation_owner_separates}
use aura_tracker_gcp.Safety.Store.{
  PlanEntry, scale_deployment as scale_kind, update_traffic as traffic_kind, new_entry,
  max_pending_plans, new_plan_store, put_scoped, claim, take, finish, plan_ttl, kind_eq,
}
use aura_tracker_gcp.Safety.Store.Lookup.{entry_at, IsOffered}
use aura_tracker_gcp.Safety.Store.Calls.{Call, puts, claims, finishes, step, run, after_calls}
use aura_tracker_gcp.Safety.Store.Invariant.{IsBounded, after_calls-IsBounded}
use aura_tracker_gcp.Safety.Store.Claims.{claim_iff, claim_excludes}
use aura_tracker_gcp.Safety.Store.Leases.{finish_consumes}
use aura_tracker_gcp.Safety.Store.History.{IsPending, claim_has_plan}
use aura_tracker_gcp.Safety.Requests.{
  ScaleDeploymentRequest, ScaleDeploymentResponse, no_scale_response, no_traffic_response,
  no_export_response,
}
use aura_tracker_gcp.Safety.Decorator.{Plan, scale_plan, Service, State}
use aura_tracker_gcp.Safety.Decorator.Scale.{scale_deployment, scale_execution, scale_target}
use aura_tracker_gcp.Safety.Serve.{
  Event, Mutation, scale, execution, perform, serve, serve_all, confirmed_id,
}
use aura_tracker_gcp.Safety.Serve.Confirmed.{IsRun}
use aura_tracker_gcp.Safety.Serve.Effect.{Previews, scales}
use aura_tracker_gcp.Safety.Serve.Claimed.{claimed}
use aura_tracker_gcp.Safety.Serve.Announced.{
  IsAnnounced, serve_all-IsBounded, cloud_changes_as_previewed,
}
use aura_tracker_gcp.Safety.Serve.Roundtrip.{
  Confirms, confirm_executes_preview, confirmation_settles,
}

abbrev ana : Context
ana = record {
  principal =
      some
        (record { subject = "ana"; email = "ana@example.org"; audience = "mcp"; issuer = "idp" });
  session = some "s1";
}

abbrev stored_calls : List (Call ℕ)
stored_calls = puts "plan" "ana" "pool" scale_kind 7 100 ∷ []

abbrev leased_calls : List (Call ℕ)
leased_calls = claims "plan" "ana" scale_kind 200 ∷ stored_calls

claim_succeeds : (claim "plan" "ana" scale_kind 200 (after_calls stored_calls)).0 ≡ some 7
unfolding claim after_calls step put_scoped new_plan_store lookup insert delete_where
claim_succeeds = refl

other_owner_refused : (claim "plan" "bob" scale_kind 200 (after_calls stored_calls)).0 ≡ none
unfolding claim after_calls step put_scoped new_plan_store lookup insert delete_where
other_owner_refused = refl

other_kind_refused : (claim "plan" "ana" traffic_kind 200 (after_calls stored_calls)).0 ≡ none
unfolding claim after_calls step put_scoped new_plan_store lookup insert delete_where
other_kind_refused = refl

expired_refused :
    (claim "plan" "ana" scale_kind 600_000_000_101 (after_calls stored_calls)).0 ≡ none
unfolding claim after_calls step put_scoped new_plan_store lookup insert delete_where
expired_refused = refl

released_again :
    (claim "plan" "ana" scale_kind 300 (after_calls (finishes "plan" false 250 ∷ leased_calls))).0
    ≡ some 7
unfolding claim after_calls step put_scoped new_plan_store finish lookup insert delete delete_where
released_again = refl

after_calls-IsBounded_example : IsBounded (after_calls leased_calls)
after_calls-IsBounded_example = after_calls-IsBounded leased_calls

claim_iff_example : ((claim "plan" "ana" scale_kind 200 (after_calls stored_calls)).0 ≡ some 7) ↔ (
    (e : PlanEntry ℕ) × (entry_at "plan" (after_calls stored_calls) ≡ some e)
    × (200 ≤ e.expires_at)
    × IsOffered "ana" scale_kind 7 e)
claim_iff_example =
    claim_iff (after_calls stored_calls) "plan" "ana" scale_kind 200 7
      (after_calls-IsBounded stored_calls).distinct

abbrev others : List (Call ℕ)
others = puts "other" "bob" "pool" scale_kind 8 210 ∷ claims "other" "bob" scale_kind 220 ∷ []

claim_excludes_example :
    let s = run (claim "plan" "ana" scale_kind 200 (after_calls stored_calls)).1 others in
    ((claim "plan" "ana" scale_kind 300 s).0 ≡ none) × ((take "plan" 300 s).0 ≡ none)
claim_excludes_example =
    claim_excludes (after_calls stored_calls) "plan" "ana" scale_kind 200 others
      (after_calls-IsBounded stored_calls) claim_succeeds (refl, (refl, tt)) "ana" scale_kind 300

finish_consumes_example :
    let s =
      run
        (finish "plan" true 250 (after_calls leased_calls))
        (claims "other" "bob" scale_kind 220 ∷ []) in
    ((claim "plan" "ana" scale_kind 300 s).0 ≡ none) × ((take "plan" 300 s).0 ≡ none)
finish_consumes_example =
    finish_consumes (after_calls leased_calls) "plan" 250 (claims "other" "bob" scale_kind 220 ∷ [])
      (after_calls-IsBounded leased_calls) (refl, tt) "ana" scale_kind 300

claim_has_plan_example :
    (t : ℕ) × (200 ≤ t + plan_ttl) × IsPending "plan" "ana" scale_kind 7 t stored_calls
claim_has_plan_example = claim_has_plan stored_calls "plan" "ana" scale_kind 200 7 claim_succeeds

ana-IsClean : IsClean ana
unfolding has_nul principal_from_context session_id
ana-IsClean = record { issuer = refl; subject = refl; email = refl; session = refl }

mutation_owner_separates_example :
    (session_id ana ≡ session_id ana)
    × SameIdentity (principal_from_context ana) (principal_from_context ana)
mutation_owner_separates_example = mutation_owner_separates ana ana ana-IsClean ana-IsClean refl

-- A cloud that is the size of its node pool.
abbrev answer : ℤ → ScaleDeploymentRequest → ScaleDeploymentResponse
answer w req = record no_scale_response { previous_count = w; requested_count = req.node_count }

abbrev pool_service : Service ℤ (Unit {0})
pool_service = record {
  scale_deployment = λ req w. ((answer w req, none), if req.dry_run then w else req.node_count);
  update_traffic = λ req w. ((no_traffic_response, none), w);
  export_recommendations = λ req w. ((no_export_response, none), w);
}

abbrev ask : Bool → String → ScaleDeploymentRequest
ask dry id = record {
  project_id = "p";
  location = "l";
  cluster_name = "c";
  node_pool_name = "n";
  node_count = pos 5;
  dry_run = dry;
  confirm_plan_id = id;
  expected_count = none;
}

abbrev preview : Event
preview = (ana, record { plan_id = "plan"; first = 100; second = 110 }, scale (ask true ""))

abbrev confirm : Event
confirm = (ana, record { plan_id = ""; first = 200; second = 210 }, scale (ask false "plan"))

abbrev previewed : State ℤ
previewed = serve_all pool_service (pos 3) (preview ∷ [])

abbrev planned : Plan
planned =
    scale_plan
      (record { original_request = ask true ""; dry_run_response = answer (pos 3) (ask true "") })

confirm_resizes : (serve pool_service confirm previewed).cloud ≡ pos 5
unfolding serve serve_all scale_deployment claim put_scoped finish new_plan_store lookup insert
    delete delete_where mutation_owner identity_key principal_from_context session_id actor
    scale_execution
confirm_resizes = refl

cloud_changes_as_previewed_example :
    ((serve pool_service confirm previewed).cloud ≡ previewed.cloud)
    ⊎ ((e : PlanEntry Plan) × IsAnnounced pool_service (pos 3) "plan" e (preview ∷ [])
        × (e.owner ≡ mutation_owner ana)
        × (e.kind ≡ scale_kind)
        × (200 ≤ e.expires_at)
        × ((serve pool_service confirm previewed).cloud
            ≡ perform pool_service (execution "plan" e.payload) previewed.cloud))
cloud_changes_as_previewed_example =
    cloud_changes_as_previewed pool_service (pos 3) (preview ∷ []) confirm refl

abbrev fresh : State ℤ
fresh = serve_all pool_service (pos 3) []

fresh_cloud : fresh.cloud ≡ pos 3
unfolding serve_all
fresh_cloud = refl

answers : Previews pool_service fresh.cloud (scale (ask true "")) planned
unfolding serve_all
answers = scales (ask true "") (answer (pos 3) (ask true "")) refl refl refl

empty_has_room : length fresh.store.entries < max_pending_plans
unfolding serve_all new_plan_store
empty_has_room = omega arith

plan-ne-blank : confirmed_id (scale (ask false "plan")) ≢ ""
plan-ne-blank e = cc ((string_eq.equals_iff "plan" "").1 e)

ana-Confirms : Confirms confirm (scale (ask true "")) "plan" (mutation_owner ana)
ana-Confirms = record {
  wet = refl;
  named = plan-ne-blank;
  same_id = refl;
  same_owner = refl;
  same_kind = refl;
}

confirm_executes_preview_example :
    (run : Mutation) × IsRun pool_service fresh.cloud "plan" (scale (ask true "")) run
    × ((serve pool_service confirm (serve pool_service preview fresh)).cloud
        ≡ perform pool_service run (serve pool_service preview fresh).cloud)
confirm_executes_preview_example =
    confirm_executes_preview pool_service fresh preview confirm planned
      (serve_all-IsBounded pool_service (pos 3) []) empty_has_room answers ana-Confirms
      (omega arith)

abbrev pending : PlanEntry Plan
pending = new_entry 100 (mutation_owner ana) "gke://p/l/c/nodePools/n" scale_kind planned

pending_entry : entry_at "plan" previewed.store ≡ some pending
unfolding serve serve_all scale_deployment put_scoped new_plan_store lookup insert delete_where
    mutation_owner identity_key principal_from_context session_id scale_target
pending_entry = refl

plan_claimed : claimed pool_service confirm previewed ≡ some planned
unfolding serve serve_all scale_deployment claim put_scoped new_plan_store lookup insert
    delete_where mutation_owner identity_key principal_from_context session_id
plan_claimed = refl

ana-Confirms_again : Confirms confirm confirm.2 "plan" (mutation_owner ana)
ana-Confirms_again = record {
  wet = refl;
  named = plan-ne-blank;
  same_id = refl;
  same_owner = refl;
  same_kind = refl;
}

confirmation_settles_example :
    claimed pool_service confirm (serve pool_service confirm previewed) ≡ none
confirmation_settles_example =
    confirmation_settles pool_service previewed confirm confirm planned pending
      (serve_all-IsBounded pool_service (pos 3) (preview ∷ [])) refl plan-ne-blank pending_entry
      plan_claimed refl (omega arith) ana-Confirms_again (omega arith)
