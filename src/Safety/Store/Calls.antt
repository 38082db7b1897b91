-- ===== src/Safety/Store/Calls.antt =====
-- The methods of the plan store as calls, and sequences of them: the mutex makes every execution of
-- concurrent callers such a sequence.
use aura_tracker_gcp.Prelude.{ℕ, String, Bool, List, [], ◌∷◌}
use aura_tracker_gcp.Safety.Store.{
  PlanKind, PlanStore, put_scoped, take, claim, finish, new_plan_store,
}

pub data Call (P : Type 0) : Type 0 where
  puts : (id owner target : String) (kind : PlanKind) (payload : P) (now : ℕ) → Call P
  takes : (id : String) (now : ℕ) → Call P
  claims : (id owner : String) (kind : PlanKind) (now : ℕ) → Call P
  finishes : (id : String) (success : Bool) (now : ℕ) → Call P

module _ {P : Type 0} where
  unfoldable pub step : PlanStore P → Call P → PlanStore P
  step s (puts id owner target kind payload now) = (put_scoped id owner target kind payload now s).1
  step s (takes id now) = (take id now s).1
  step s (claims id owner kind now) = (claim id owner kind now s).1
  step s (finishes id success now) = finish id success now s

  unfoldable pub run : PlanStore P → List (Call P) → PlanStore P
  run s [] = s
  run s (c ∷ cs) = run (step s c) cs

  -- The store after a history, the latest call first.
  unfoldable pub after_calls : List (Call P) → PlanStore P
  after_calls [] = new_plan_store
  after_calls (c ∷ history) = step (after_calls history) c
