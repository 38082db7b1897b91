-- ===== src/Safety/Store/Leases.antt =====
-- A consumed plan stays consumed.
use aura_tracker_gcp.Prelude.{
  ℕ, String, Bool, true, false, none, List, [], ◌∷◌, arith, ◌≡◌, ◌==◌, Option-cases, inl, inr,
  string_eq, All,
}
use aura_tracker_gcp.GoMap.{Distinct}
use aura_tracker_gcp.Safety.Store.{PlanKind, PlanStore, put_scoped, take, claim, finish}
use aura_tracker_gcp.Safety.Store.Lookup.{
  entry_at, entry-put_scoped, entry-put_scoped_refused, entry-take, entry-take-none, entry-claim,
  entry-claim-none, entry-finish, claim-IsOffered,
}
use aura_tracker_gcp.Safety.Store.Calls.{Call, puts, takes, claims, finishes, step, run}
use aura_tracker_gcp.Safety.Store.Invariant.{IsBounded, step-IsBounded, run-IsBounded}
use aura_tracker_gcp.Safety.Store.Claims.{IsHeld, claim_of_IsHeld, take_of_IsHeld}

module _ {P : Type 0} where
  abbrev pub IsGone : String → PlanStore P → Type 0
  IsGone id s = entry_at id s ≡ none

  -- The calls that store a plan under the id.
  abbrev pub stores : String → Call P → Bool
  stores id (puts j _ _ _ _ _) = j == id
  stores id (takes _ _) = false
  stores id (claims _ _ _ _) = false
  stores id (finishes _ _ _) = false

  step-IsGone :
      (id : String) (s : PlanStore P) (c : Call P)
      → Distinct s.entries
      → stores id c ≡ false
      → IsGone id s
      → IsGone id (step s c)
  unfolding step
  step-IsGone id s (puts j owner target kind payload now) d r h =
      elim (Option-cases (put_scoped j owner target kind payload now s).0) [
        | inl ok ↦ rw (entry-put_scoped s d j owner target kind payload now id ok, r, h)
        | inr (x, bad) ↦
            elim (entry-put_scoped_refused s d j owner target kind payload now id (λ e. cc)) [
              | inl e ↦ rw (e, h)
              | inr e ↦ rw (e, h)
            ]
      ]
  step-IsGone id s (takes j now) d r h = elim (Option-cases (take j now s).0) [
    | inl refused ↦ rw (entry-take-none s d j now id refused, h)
    | inr (p, ok) ↦ ground (arith, entry-take s d j now id ok)
  ]
  step-IsGone id s (claims j owner kind now) d r h =
      elim (Option-cases (claim j owner kind now s).0) [
        | inl refused ↦ rw (entry-claim-none s d j owner kind now id refused, h)
        | inr (p, ok) ↦
            let (e, live, offered) = claim-IsOffered s d j owner kind now ok in
            ground (arith, entry-claim s d j owner kind now e id ok live, string_eq.equals_iff j id)
      ]
  step-IsGone id s (finishes j success now) d r h =
      ground (arith, entry-finish j success now s id, string_eq.equals_iff j id)

  run-IsGone :
      (id : String) (s : PlanStore P) (cs : List (Call P))
      → IsBounded s
      → All (λ c. stores id c ≡ false) cs
      → IsGone id s
      → IsGone id (run s cs)
  unfolding run
  run-IsGone id s [] v r h = h
  run-IsGone id s (c ∷ cs) v r h =
      run-IsGone id (step s c) cs (step-IsBounded s c v) r.1 (step-IsGone id s c v.distinct r.0 h)

  -- A plan that was executed with success is spent: from a store within its invariant, after
  -- `finish id true` and any calls that store no plan under the id, every claim and every take of
  -- the id is refused.
  pub finish_consumes :
      (s : PlanStore P) (id : String) (now : ℕ) (cs : List (Call P))
      → IsBounded s
      → All (λ c. stores id c ≡ false) cs
      → (owner : String) (kind : PlanKind) (now' : ℕ)
      → ((claim id owner kind now' (run (finish id true now s) cs)).0 ≡ none)
        × ((take id now' (run (finish id true now s) cs)).0 ≡ none)
  finish_consumes s id now cs v r owner kind now' =
      let s' = finish id true now s in
      let v' = finished s id now v in
      let gone = run-IsGone id s' cs v' r (spent s id now) in
      let d = (run-IsBounded s' cs v').distinct in
      let held : IsHeld id (run s' cs) = rw gone tt in
      (
        claim_of_IsHeld id owner kind now' (run s' cs) d held,
        take_of_IsHeld id now' (run s' cs) d held,
      )
    where
      finished :
          (s : PlanStore P) (id : String) (now : ℕ) → IsBounded s → IsBounded (finish id true now s)
      finished s id now v = unfold step in step-IsBounded s (finishes id true now) v

      spent : (s : PlanStore P) (id : String) (now : ℕ) → IsGone id (finish id true now s)
      spent s id now = ground (
        arith,
        entry-finish id true now s id,
        string_eq.equals_iff id id,
        Option-cases (entry_at id s),
      )
