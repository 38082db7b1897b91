-- ===== src/Safety/Store.antt =====
-- internal/safety/store.go: the pending execution plans. The clock reading of `time.Now()` is an
-- argument, in nanoseconds; the mutex makes each method one step. A method returns its result and
-- the new store.
pub mod Lookup
pub mod Calls
pub mod Invariant
pub mod Claims
pub mod Leases
pub mod Settle
pub mod History
use aura_tracker_gcp.Prelude.{
  ℕ, ◌+◌, String, Bool, true, false, not, ◌||◌, Option, none, some, [], ltb, leb, Eq, ◌==◌,
  string_eq, if◌then◌else◌, length, arith, ◌≡◌, ◌↔◌,
}
use aura_tracker_gcp.GoMap.{GoMap, lookup, insert, delete, delete_where}
use aura_tracker_gcp.Message.{ℤ, pos, sub_ℕ}

-- 10 * time.Minute
abbrev pub plan_ttl : ℕ
plan_ttl = 600_000_000_000

abbrev pub max_pending_plans : ℕ
max_pending_plans = 1000

pub data PlanKind : Type 0 where
  unknown scale_deployment update_traffic export_recommendations : PlanKind

abbrev pub kind_beq : PlanKind → PlanKind → Bool
kind_beq unknown unknown = true
kind_beq scale_deployment scale_deployment = true
kind_beq update_traffic update_traffic = true
kind_beq export_recommendations export_recommendations = true
kind_beq _ _ = false

pub kind_equals_iff : (a b : PlanKind) → (kind_beq a b ≡ true) ↔ (a ≡ b)
kind_equals_iff a b = ground arith

instance abbrev pub kind_eq : Eq PlanKind
kind_eq = record { equals = kind_beq; equals_iff = kind_equals_iff }

pub record PlanEntry (P : Type 0) : Type 0 where
  pub payload : P
  pub kind : PlanKind
  pub owner : String
  pub target : String
  pub expires_at : ℕ
  pub in_flight : Bool

pub record PlanStore (P : Type 0) : Type 0 where
  pub entries : GoMap String (PlanEntry P)

pub data PutError : Type 0 where
  kind_required : PutError
  capacity_reached : ℕ → PutError

-- now.After(t)
abbrev pub after : ℕ → ℕ → Bool
after now t = ltb t now

abbrev pub expired : {P : Type 0} → ℕ → PlanEntry P → Bool
expired now e = after now e.expires_at

module _ {P : Type 0} where
  unfoldable pub new_plan_store : PlanStore P
  new_plan_store = record { entries = [] }

  unfoldable pub purge_expired : ℕ → PlanStore P → PlanStore P
  purge_expired now s = record { entries = delete_where (expired now) s.entries }

  abbrev pub new_entry : ℕ → String → String → PlanKind → P → PlanEntry P
  new_entry now owner target kind payload = record {
    payload = payload;
    kind = kind;
    owner = owner;
    target = target;
    expires_at = now + plan_ttl;
    in_flight = false;
  }

  unfoldable pub put_scoped :
      String → String → String → PlanKind → P → ℕ → PlanStore P → Option PutError × PlanStore P
  unfolding purge_expired
  put_scoped id owner target kind payload now s =
      if kind == unknown
      then (some kind_required, s)
      else let kept = purge_expired now s in
        if leb max_pending_plans (length kept.entries)
        then (some (capacity_reached max_pending_plans), kept)
        else let entry = new_entry now owner target kind payload in
          (none, record { entries = insert id entry kept.entries })

  take_entry : String → Option (PlanEntry P) → PlanStore P → Option P × PlanStore P
  take_entry id none s = (none, s)
  take_entry id (some e) s =
      if e.in_flight then (none, s) else (some e.payload, record { entries = delete id s.entries })

  -- Single use: the plan is removed as it is returned.
  unfoldable pub take : String → ℕ → PlanStore P → Option P × PlanStore P
  unfolding purge_expired take_entry
  take id now s = let kept = purge_expired now s in take_entry id (lookup id kept.entries) kept

  claim_entry :
      String → String → PlanKind → Option (PlanEntry P) → PlanStore P → Option P × PlanStore P
  claim_entry id owner kind none s = (none, s)
  claim_entry id owner kind (some e) s =
      if e.in_flight || not (e.owner == owner) || not (e.kind == kind) then (none, s) else (
        some e.payload,
        record { entries = insert id (record e { in_flight = true }) s.entries },
      )

  -- Leases a plan to one execution.
  unfoldable pub claim : String → String → PlanKind → ℕ → PlanStore P → Option P × PlanStore P
  unfolding purge_expired claim_entry
  claim id owner kind now s =
      let kept = purge_expired now s in claim_entry id owner kind (lookup id kept.entries) kept

  finish_entry : String → Bool → ℕ → Option (PlanEntry P) → PlanStore P → PlanStore P
  finish_entry id success now none s = s
  finish_entry id success now (some e) s =
      if success || expired now e
      then record { entries = delete id s.entries }
      else record { entries = insert id (record e { in_flight = false }) s.entries }

  -- Ends a lease: consumes the plan, or releases it for another attempt.
  unfoldable pub finish : String → Bool → ℕ → PlanStore P → PlanStore P
  unfolding finish_entry
  finish id success now s = finish_entry id success now (lookup id s.entries) s

  -- time.Until of the deadline, 0 for a plan that is not there.
  unfoldable pub expires_in : String → ℕ → PlanStore P → ℤ
  expires_in id now s = elim (lookup id s.entries) [
    | none ↦ pos 0
    | some e ↦ sub_ℕ e.expires_at now
  ]
