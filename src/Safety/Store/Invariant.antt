-- ===== src/Safety/Store/Invariant.antt =====
-- What holds of the plan store after every method: one entry to an id, at most `max_pending_plans`
-- entries, and none of the unknown kind.
use aura_tracker_gcp.Prelude.{
  ℕ, ◌≤◌, String, Bool, Option, none, some, List, [], ◌∷◌, arith, ◌≡◌, refl, string_eq, length,
}
use aura_tracker_gcp.GoMap.{
  Distinct, insert-Distinct, delete-Distinct, delete_where-Distinct, length-insert-le,
  length-insert_present, length-delete-le, length-delete_where-le,
}
use aura_tracker_gcp.Safety.Store.{
  PlanKind, PlanEntry, PlanStore, new_entry, expired, purge_expired, put_scoped, take, claim,
  claim_entry, finish, finish_entry, kind_eq, max_pending_plans, new_plan_store,
}
use aura_tracker_gcp.Safety.Store.Lookup.{entry_at, leased, released}
use aura_tracker_gcp.Safety.Store.Calls.{
  Call, puts, takes, claims, finishes, step, run, after_calls,
}

module _ {P : Type 0} where
  pub record IsBounded (s : PlanStore P) : Type 0 where
    pub distinct : Distinct s.entries
    pub bounded : length s.entries ≤ max_pending_plans

  pub new_plan_store-IsBounded : IsBounded new_plan_store
  unfolding new_plan_store
  new_plan_store-IsBounded = record { distinct = tt; bounded = omega arith }

  purge-IsBounded : (now : ℕ) (s : PlanStore P) → IsBounded s → IsBounded (purge_expired now s)
  unfolding purge_expired
  purge-IsBounded now s v = record {
    distinct = delete_where-Distinct (expired now) s.entries v.distinct;
    bounded = omega (arith, length-delete_where-le (expired now) s.entries);
  }

  pub put_scoped-IsBounded :
      (id owner target : String) (kind : PlanKind) (payload : P) (now : ℕ) (s : PlanStore P)
      → IsBounded s
      → IsBounded (put_scoped id owner target kind payload now s).1
  unfolding put_scoped
  put_scoped-IsBounded id owner target kind payload now s v =
      let kept = purge_expired now s in
      let entry = new_entry now owner target kind payload in
      ground (
        arith,
        purge-IsBounded now s v,
        insert-Distinct id entry kept.entries,
        length-insert-le id entry kept.entries,
      )

  take-IsBounded :
      (id : String) (now : ℕ) (s : PlanStore P) → IsBounded s → IsBounded (take id now s).1
  unfolding take
  take-IsBounded id now s v =
      let kept = purge_expired now s in
      ground (
        arith,
        purge-IsBounded now s v,
        delete-Distinct id kept.entries,
        length-delete-le id kept.entries,
      )

  claim_entry-IsBounded :
      (id owner : String) (kind : PlanKind) (o : Option (PlanEntry P)) (s : PlanStore P)
      → entry_at id s ≡ o
      → IsBounded s
      → IsBounded (claim_entry id owner kind o s).1
  unfolding claim_entry
  claim_entry-IsBounded id owner kind none s here v = v
  claim_entry-IsBounded id owner kind (some e) s here v = ground (
    arith,
    insert-Distinct id (leased e) s.entries,
    length-insert_present id (leased e) e s.entries,
  )

  pub claim-IsBounded :
      (id owner : String) (kind : PlanKind) (now : ℕ) (s : PlanStore P)
      → IsBounded s
      → IsBounded (claim id owner kind now s).1
  unfolding claim
  claim-IsBounded id owner kind now s v =
      let kept = purge_expired now s in
      claim_entry-IsBounded id owner kind (entry_at id kept) kept refl (purge-IsBounded now s v)

  finish_entry-IsBounded :
      (id : String) (success : Bool) (now : ℕ) (o : Option (PlanEntry P)) (s : PlanStore P)
      → entry_at id s ≡ o
      → IsBounded s
      → IsBounded (finish_entry id success now o s)
  unfolding finish_entry
  finish_entry-IsBounded id success now none s here v = v
  finish_entry-IsBounded id success now (some e) s here v = ground (
    arith,
    insert-Distinct id (released e) s.entries,
    length-insert_present id (released e) e s.entries,
    delete-Distinct id s.entries,
    length-delete-le id s.entries,
  )

  pub finish-IsBounded :
      (id : String) (success : Bool) (now : ℕ) (s : PlanStore P)
      → IsBounded s
      → IsBounded (finish id success now s)
  unfolding finish
  finish-IsBounded id success now s v =
      finish_entry-IsBounded id success now (entry_at id s) s refl v

  pub step-IsBounded : (s : PlanStore P) (c : Call P) → IsBounded s → IsBounded (step s c)
  unfolding step
  step-IsBounded s (puts id owner target kind payload now) v =
      put_scoped-IsBounded id owner target kind payload now s v
  step-IsBounded s (takes id now) v = take-IsBounded id now s v
  step-IsBounded s (claims id owner kind now) v = claim-IsBounded id owner kind now s v
  step-IsBounded s (finishes id success now) v = finish-IsBounded id success now s v

  pub run-IsBounded : (s : PlanStore P) (cs : List (Call P)) → IsBounded s → IsBounded (run s cs)
  unfolding run
  run-IsBounded s [] v = v
  run-IsBounded s (c ∷ cs) v = run-IsBounded (step s c) cs (step-IsBounded s c v)

  -- After any calls at all, no id stands twice and at most 1000 plans are pending.
  pub after_calls-IsBounded : (history : List (Call P)) → IsBounded (after_calls history)
  unfolding after_calls
  after_calls-IsBounded [] = new_plan_store-IsBounded
  after_calls-IsBounded (c ∷ history) =
      step-IsBounded (after_calls history) c (after_calls-IsBounded history)
