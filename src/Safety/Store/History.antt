-- ===== src/Safety/Store/History.antt =====
-- Where the entries of the plan store come from, over every history of calls.
use aura_tracker_gcp.Prelude.{
  ℕ, ◌+◌, ◌≤◌, String, Bool, true, false, ◌&&◌, Option, none, some, List, [], ◌∷◌, arith, ◌≡◌, refl,
  ◌==◌, Option-cases, Bool-cases, inl, inr, string_eq, if◌then◌else◌, ◌⊎◌,
}
use aura_tracker_gcp.GoMap.{Distinct, lookup}
use aura_tracker_gcp.Safety.Store.{
  PlanKind, PlanEntry, PlanStore, plan_ttl, new_entry, put_scoped, take, claim, finish,
  new_plan_store,
}
use aura_tracker_gcp.Safety.Store.Lookup.{
  entry_at, live_at, leased, entry-put_scoped, entry-put_scoped_refused, entry-take,
  entry-take-none, entry-claim, entry-claim-none, entry-finish, claim-IsOffered,
}
use aura_tracker_gcp.Safety.Store.Calls.{Call, puts, takes, claims, finishes, step, after_calls}
use aura_tracker_gcp.Safety.Store.Invariant.{after_calls-IsBounded}
use aura_tracker_gcp.Safety.Store.Claims.{claim_iff}

abbrev pub is_some {ℓ} : {A : Type ℓ} → Option A → Bool
is_some none = false
is_some (some a) = true

module _ {P : Type 0} where
  -- The call ends the plan that stands under the id: it takes it, finishes it with success, or
  -- stores another in its place.
  pub spends : String → Call P → PlanStore P → Bool
  spends id (puts j owner target kind payload now) s =
      if is_some (put_scoped j owner target kind payload now s).0 then false else j == id
  spends id (takes j now) s = j == id && is_some (take j now s).0
  spends id (claims _ _ _ _) s = false
  spends id (finishes j success _) s = j == id && success

  -- The call stores the plan, at the time, and is not refused.
  abbrev pub Stores : String → String → PlanKind → P → ℕ → Call P → PlanStore P → Type 0
  Stores id owner kind payload t c s =
      (target : String) × (c ≡ puts id owner target kind payload t)
      × ((put_scoped id owner target kind payload t s).0 ≡ none)

  -- In a history, the latest call first, the plan was stored at time `t` and not spent since.
  abbrev pub IsPending : String → String → PlanKind → P → ℕ → List (Call P) → Type 0
  IsPending id owner kind payload t [] = ⊥
  IsPending id owner kind payload t (c ∷ history) =
      Stores id owner kind payload t c (after_calls history)
      ⊎ ((spends id c (after_calls history) ≡ false) × IsPending id owner kind payload t history)

  pub record SamePlan (a b : PlanEntry P) : Type 0 where
    pub owner : a.owner ≡ b.owner
    pub kind : a.kind ≡ b.kind
    pub payload : a.payload ≡ b.payload
    pub expires_at : a.expires_at ≡ b.expires_at

  abbrev pub Kept : String → PlanEntry P → Call P → PlanStore P → Type 0
  Kept id e c s =
      (a : PlanEntry P) × (entry_at id s ≡ some a) × SamePlan a e × (spends id c s ≡ false)

  abbrev pub Stored : String → PlanEntry P → Call P → PlanStore P → Type 0
  Stored id e c s =
      (t : ℕ) × (e.expires_at ≡ t + plan_ttl) × Stores id e.owner e.kind e.payload t c s

  pub same : (a : PlanEntry P) → SamePlan a a
  same a = record { owner = refl; kind = refl; payload = refl; expires_at = refl }

  live_kept :
      (now : ℕ) (id : String) (s : PlanStore P) (e : PlanEntry P)
      → live_at now id s ≡ some e
      → entry_at id s ≡ some e
  live_kept now id s e h = ground arith

  pub put_origin :
      (id j owner target : String) (kind : PlanKind) (payload : P) (now : ℕ) (s : PlanStore P)
      (e : PlanEntry P)
      → Distinct s.entries
      → entry_at id (put_scoped j owner target kind payload now s).1 ≡ some e
      → let c = puts j owner target kind payload now in Stored id e c s ⊎ Kept id e c s
  unfolding spends
  put_origin id j owner target kind payload now s e d h =
      elim (Option-cases (put_scoped j owner target kind payload now s).0) [
        | inl ok ↦ elim (Bool-cases (j == id)) [
          | inr other ↦ inr (
            e,
            live_kept now id s e
                (ground (arith, entry-put_scoped s d j owner target kind payload now id ok)),
            same e,
            ground arith,
          )
          | inl at_id ↦
              let i : j ≡ id = (string_eq.equals_iff j id).0 at_id in
              let f : some (new_entry now owner target kind payload) ≡ some e =
                ground (arith, entry-put_scoped s d j owner target kind payload now id ok) in
              inl (now, ground (arith, f), (target, ground (arith, f, i), ground (arith, f, i, ok)))
        ]
        | inr (x, bad) ↦ inr (
          e,
          elim (entry-put_scoped_refused s d j owner target kind payload now id (λ z. cc)) [
            | inl live ↦ live_kept now id s e (cc live)
            | inr kept ↦ cc kept
          ],
          same e,
          rw bad,
        )
      ]

  take_origin :
      (id j : String) (now : ℕ) (s : PlanStore P) (e : PlanEntry P)
      → Distinct s.entries
      → entry_at id (take j now s).1 ≡ some e
      → Kept id e (takes j now) s
  unfolding spends
  take_origin id j now s e d h = elim (Option-cases (take j now s).0) [
    | inl refused ↦
        (e, live_kept now id s e (cc (entry-take-none s d j now id refused)), same e, ground arith)
    | inr (p, ok) ↦ (
      e,
      live_kept now id s e (ground (arith, entry-take s d j now id ok)),
      same e,
      ground (arith, entry-take s d j now id ok),
    )
  ]

  pub claim_origin :
      (id j owner : String) (kind : PlanKind) (now : ℕ) (s : PlanStore P) (e : PlanEntry P)
      → Distinct s.entries
      → entry_at id (claim j owner kind now s).1 ≡ some e
      → Kept id e (claims j owner kind now) s
  unfolding spends
  claim_origin id j owner kind now s e d h = elim (Option-cases (claim j owner kind now s).0) [
    | inl refused ↦ (
      e,
      live_kept now id s e (cc (entry-claim-none s d j owner kind now id refused)),
      same e,
      refl,
    )
    | inr (p, ok) ↦
        let (a, live, offered) = claim-IsOffered s d j owner kind now ok in
        elim (Bool-cases (j == id)) [
          | inr other ↦ (
            e,
            live_kept now id s e (ground (arith, entry-claim s d j owner kind now a id ok live)),
            same e,
            refl,
          )
          | inl at_id ↦
              let i : j ≡ id = (string_eq.equals_iff j id).0 at_id in
              let f : some (leased a) ≡ some e =
                ground (arith, entry-claim s d j owner kind now a id ok live) in
              (a, rw (← i) (live_kept now j s a live), ground (arith, f), refl)
        ]
  ]

  pub finish_origin :
      (id j : String) (success : Bool) (now : ℕ) (s : PlanStore P) (e : PlanEntry P)
      → entry_at id (finish j success now s) ≡ some e
      → Kept id e (finishes j success now) s
  unfolding spends
  finish_origin id j success now s e h = elim (Option-cases (entry_at id s)) [
    | inl gone ↦ absurd (ground (arith, entry-finish j success now s id, string_eq.equals_iff j id))
    | inr (a, here) ↦ (
      a,
      here,
      ground (arith, entry-finish j success now s id, string_eq.equals_iff j id),
      ground (arith, entry-finish j success now s id, string_eq.equals_iff j id),
    )
  ]

  step_origin :
      (id : String) (c : Call P) (s : PlanStore P) (e : PlanEntry P)
      → Distinct s.entries
      → entry_at id (step s c) ≡ some e
      → Stored id e c s ⊎ Kept id e c s
  unfolding step
  step_origin id (puts j owner target kind payload now) s e d h =
      put_origin id j owner target kind payload now s e d h
  step_origin id (takes j now) s e d h = inr (take_origin id j now s e d h)
  step_origin id (claims j owner kind now) s e d h = inr (claim_origin id j owner kind now s e d h)
  step_origin id (finishes j success now) s e d h = inr (finish_origin id j success now s e h)

  abbrev Backed : String → PlanEntry P → List (Call P) → Type 0
  Backed id e history =
      (t : ℕ) × (e.expires_at ≡ t + plan_ttl) × IsPending id e.owner e.kind e.payload t history

  IsPending-of_eq :
      (id : String) (t : ℕ) (history : List (Call P)) {o o' : String} {k k' : PlanKind} {p p' : P}
      → o ≡ o'
      → k ≡ k'
      → p ≡ p'
      → IsPending id o k p t history
      → IsPending id o' k' p' t history
  IsPending-of_eq id t history owners kinds payloads h = rw (← owners, ← kinds, ← payloads) h

  entry-Backed :
      (id : String) (e : PlanEntry P) (history : List (Call P))
      → entry_at id (after_calls history) ≡ some e
      → Backed id e history
  unfolding after_calls new_plan_store lookup
  entry-Backed id e [] h = cc
  entry-Backed id e (c ∷ history) h =
      elim (step_origin id c (after_calls history) e (after_calls-IsBounded history).distinct h) [
        | inl (t, deadline, stored) ↦ (t, deadline, inl stored)
        | inr (a, here, alike, unspent) ↦
            let (t, deadline, pending) = entry-Backed id a history here in
            (
              t,
              ground (arith, alike.expires_at),
              inr (
                unspent,
                IsPending-of_eq id t history alike.owner alike.kind alike.payload pending,
              ),
            )
      ]

  -- Every execution was announced: when a claim succeeds after any history of calls, a plan with
  -- the same id, owner, kind and payload was stored in that history, at most `plan_ttl` before the
  -- claim, and no call since has taken it, finished it with success or replaced it.
  pub claim_has_plan :
      (history : List (Call P)) (id owner : String) (kind : PlanKind) (now : ℕ) (p : P)
      → (claim id owner kind now (after_calls history)).0 ≡ some p
      → (t : ℕ) × (now ≤ t + plan_ttl) × IsPending id owner kind p t history
  claim_has_plan history id owner kind now p ok =
      let d = (after_calls-IsBounded history).distinct in
      let (e, here, fresh, offered) =
        (claim_iff (after_calls history) id owner kind now p d).0 ok in
      let (t, deadline, pending) = entry-Backed id e history here in
      (
        t,
        omega (arith, deadline),
        IsPending-of_eq id t history offered.same_owner offered.same_kind offered.same_payload
            pending,
      )
