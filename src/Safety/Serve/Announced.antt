-- ===== src/Safety/Serve/Announced.antt =====
-- Over every history of calls: what is pending was previewed by its owner, and what reaches the
-- cloud was previewed by the caller who confirms it.
use aura_tracker_gcp.Prelude.{
  ◌+◌, ◌≤◌, String, false, some, List, [], ◌∷◌, arith, ◌≡◌, sym, subst, ◌∙◌, ◌⊎◌, inl, inr,
  string_eq,
}
use aura_tracker_gcp.GoMap.{lookup}
use aura_tracker_gcp.Safety.Caller.{mutation_owner}
use aura_tracker_gcp.Safety.Store.{PlanEntry, PlanStore, plan_ttl, new_plan_store}
use aura_tracker_gcp.Safety.Store.Lookup.{entry_at}
use aura_tracker_gcp.Safety.Store.Invariant.{
  IsBounded, new_plan_store-IsBounded, put_scoped-IsBounded, claim-IsBounded, finish-IsBounded,
}
use aura_tracker_gcp.Safety.Store.Claims.{claim_iff}
use aura_tracker_gcp.Safety.Store.History.{SamePlan, put_origin, claim_origin, finish_origin, same}
use aura_tracker_gcp.Safety.Decorator.{Plan, Service, State}
use aura_tracker_gcp.Safety.Serve.{
  is_dry_run, confirmed_id, kind_of, execution, Event, perform, serve, serve_all,
}
use aura_tracker_gcp.Safety.Serve.Claimed.{cloud-serve}
use aura_tracker_gcp.Safety.Serve.Effect.{
  Previews, Effect, untouched, stored, claimed, finished, target_of, serve-Effect, claim_step,
}

module _ {W E : Type 0} (svc : Service W E) where
  -- The call is the dry run that the plan entry comes from.
  pub record IsSource (id : String) (e : PlanEntry Plan) (c : Event) (w : W) : Type 0 where
    pub plan_id : c.1.plan_id ≡ id
    pub owner : mutation_owner c.0 ≡ e.owner
    pub kind : kind_of c.2 ≡ e.kind
    pub previewed : Previews svc w c.2 e.payload
    pub deadline : e.expires_at ≡ c.1.first + plan_ttl

  -- Some call of the history, the latest first, is the source of the plan entry.
  abbrev pub IsAnnounced : W → String → PlanEntry Plan → List Event → Type 0
  IsAnnounced w id e [] = ⊥
  IsAnnounced w id e (c ∷ history) =
      IsSource id e c (serve_all svc w history).cloud ⊎ IsAnnounced w id e history

  effect-IsBounded :
      (c : Event) (st : State W) (after : PlanStore Plan)
      → Effect svc c st after
      → IsBounded st.store
      → IsBounded after
  effect-IsBounded (ctx, env, m) st after (untouched e) v = rw e v
  effect-IsBounded (ctx, env, m) st after (stored plan p e) v = rw e (
      put_scoped-IsBounded env.plan_id (mutation_owner ctx) (target_of m) (kind_of m) plan env.first
        st.store v)
  effect-IsBounded (ctx, env, m) st after (claimed e) v =
      rw e (claim-IsBounded (confirmed_id m) (mutation_owner ctx) (kind_of m) env.first st.store v)
  effect-IsBounded (ctx, env, m) st after (finished success e) v = rw e (
      finish-IsBounded (confirmed_id m) success env.second (claim_step svc (ctx, env, m) st)
        (claim-IsBounded (confirmed_id m) (mutation_owner ctx) (kind_of m) env.first st.store v))

  pub serve_all-IsBounded :
      (w : W) (history : List Event) → IsBounded (serve_all svc w history).store
  unfolding serve_all
  serve_all-IsBounded w [] = new_plan_store-IsBounded
  serve_all-IsBounded w (c ∷ history) =
      let st = serve_all svc w history in
      effect-IsBounded c st (serve svc c st).store (serve-Effect svc c st)
        (serve_all-IsBounded w history)

  abbrev Origin : String → PlanEntry Plan → Event → State W → Type 0
  Origin id e c st =
      IsSource id e c st.cloud
      ⊎ ((a : PlanEntry Plan) × (entry_at id st.store ≡ some a) × SamePlan a e)

  SamePlan-trans : {P : Type 0} {a b c : PlanEntry P} → SamePlan a b → SamePlan b c → SamePlan a c
  SamePlan-trans m n = record {
    owner = m.owner ∙ n.owner;
    kind = m.kind ∙ n.kind;
    payload = m.payload ∙ n.payload;
    expires_at = m.expires_at ∙ n.expires_at;
  }

  effect-Origin :
      (id : String) (e : PlanEntry Plan) (c : Event) (st : State W) (after : PlanStore Plan)
      → Effect svc c st after
      → IsBounded st.store
      → entry_at id after ≡ some e
      → Origin id e c st
  effect-Origin id e (ctx, env, m) st after (untouched q) v h = inr (e, rw q at h, same e)
  effect-Origin id e (ctx, env, m) st after (stored plan p q) v h =
      elim (put_origin id env.plan_id (mutation_owner ctx) (target_of m) (kind_of m) plan env.first
        st.store e v.distinct (rw q at h)) [
          | inl (t, deadline, (target, call, ok)) ↦ inl (record {
            plan_id = ground arith;
            owner = ground arith;
            kind = ground arith;
            previewed = subst (Previews svc st.cloud m) (ground arith) p;
            deadline = ground arith;
          })
          | inr (a, here, alike, _) ↦ inr (a, here, alike)
        ]
  effect-Origin id e (ctx, env, m) st after (claimed q) v h =
      let (a, here, alike, _) =
        claim_origin id (confirmed_id m) (mutation_owner ctx) (kind_of m) env.first st.store e
          v.distinct (rw q at h) in
      inr (a, here, alike)
  effect-Origin id e (ctx, env, m) st after (finished success q) v h =
      let (b, there, alike', _) =
        finish_origin id (confirmed_id m) success env.second (claim_step svc (ctx, env, m) st) e
          (rw q at h) in
      let (a, here, alike, _) =
        claim_origin id (confirmed_id m) (mutation_owner ctx) (kind_of m) env.first st.store b
          v.distinct there in
      inr (a, here, SamePlan-trans alike alike')

  IsSource-of_SamePlan :
      (id : String) (a e : PlanEntry Plan) (c : Event) (w : W)
      → SamePlan a e
      → IsSource id a c w
      → IsSource id e c w
  IsSource-of_SamePlan id a e c w m s = record {
    plan_id = s.plan_id;
    owner = s.owner ∙ m.owner;
    kind = s.kind ∙ m.kind;
    previewed = subst (Previews svc w c.2) m.payload s.previewed;
    deadline = sym m.expires_at ∙ s.deadline;
  }

  IsAnnounced-of_SamePlan :
      (w : W) (id : String) (a e : PlanEntry Plan) (history : List Event)
      → SamePlan a e
      → IsAnnounced w id a history
      → IsAnnounced w id e history
  IsAnnounced-of_SamePlan w id a e [] m h = h
  IsAnnounced-of_SamePlan w id a e (c ∷ history) m (inl s) =
      inl (IsSource-of_SamePlan id a e c (serve_all svc w history).cloud m s)
  IsAnnounced-of_SamePlan w id a e (c ∷ history) m (inr h) =
      inr (IsAnnounced-of_SamePlan w id a e history m h)

  pub entry-IsAnnounced :
      (w : W) (id : String) (e : PlanEntry Plan) (history : List Event)
      → entry_at id (serve_all svc w history).store ≡ some e
      → IsAnnounced w id e history
  unfolding serve_all new_plan_store lookup
  entry-IsAnnounced w id e [] h = cc
  entry-IsAnnounced w id e (c ∷ history) h =
      let st = serve_all svc w history in
      elim (effect-Origin id e c st (serve svc c st).store (serve-Effect svc c st)
        (serve_all-IsBounded w history) h) [
          | inl s ↦ inl s
          | inr (a, here, alike) ↦ inr (
              IsAnnounced-of_SamePlan w id a e history alike
                (entry-IsAnnounced w id a history here))
        ]

  -- No mutation without a preview: over every history of calls from the empty store, a call that is
  -- no dry run either leaves the cloud as it is, or does to it exactly what the plan that it names
  -- stands for, and that plan comes from an earlier dry run with its plan id, by a caller with the
  -- same owner text and of the same kind of mutation, at most `plan_ttl` before, which the service
  -- answered with no error.
  pub cloud_changes_as_previewed :
      (w : W) (history : List Event) (c : Event)
      → is_dry_run c.2 ≡ false
      → let st = serve_all svc w history in
        ((serve svc c st).cloud ≡ st.cloud)
        ⊎ ((e : PlanEntry Plan) × IsAnnounced w (confirmed_id c.2) e history
            × (e.owner ≡ mutation_owner c.0)
            × (e.kind ≡ kind_of c.2)
            × (c.1.first ≤ e.expires_at)
            × ((serve svc c st).cloud
                ≡ perform svc (execution (confirmed_id c.2) e.payload) st.cloud))
  cloud_changes_as_previewed w history (ctx, env, m) h =
      let st = serve_all svc w history in
      elim (cloud-serve svc (ctx, env, m) st h) [
        | inl still ↦ inl still
        | inr (plan, named, ok, done) ↦
            let (e, here, fresh, offered) =
              (claim_iff st.store (confirmed_id m) (mutation_owner ctx) (kind_of m) env.first plan
                  (serve_all-IsBounded w history).distinct).0
                ok in
            inr (
              e,
              entry-IsAnnounced w (confirmed_id m) e history here,
              offered.same_owner,
              offered.same_kind,
              fresh,
              rw offered.same_payload done,
            )
      ]
