-- ===== src/Safety/Store/Claims.antt =====
-- Exactly which claims succeed, and that a lease shuts out every other caller until it ends.
use aura_tracker_gcp.Prelude.{
  ℕ, ◌≤◌, String, Bool, true, false, Option, none, some, List, [], ◌∷◌, arith, ◌≡◌, refl, ◌↔◌, ◌==◌,
  Option-cases, inl, inr, string_eq, All,
}
use aura_tracker_gcp.GoMap.{Distinct, unless}
use aura_tracker_gcp.Safety.Store.{
  PlanKind, PlanEntry, PlanStore, expired, put_scoped, take, claim, finish,
}
use aura_tracker_gcp.Safety.Store.Lookup.{
  entry_at, live_at, IsOffered, entry-purge_expired, entry-put_scoped, entry-put_scoped_refused,
  entry-take, entry-take-none, entry-claim, entry-claim-none, entry-finish, claim-IsOffered,
  claim_of_IsOffered,
}
use aura_tracker_gcp.Safety.Store.Calls.{Call, puts, takes, claims, finishes, step, run}
use aura_tracker_gcp.Safety.Store.Invariant.{IsBounded, step-IsBounded, run-IsBounded}

module _ {P : Type 0} where
  live_split :
      (now : ℕ) (id : String) (s : PlanStore P) (e : PlanEntry P)
      → (live_at now id s ≡ some e) ↔ ((entry_at id s ≡ some e) × (now ≤ e.expires_at))
  live_split now id s e = elim (Option-cases (entry_at id s)) [
    | inl gone ↦ (λ h. ground arith, λ h. ground arith)
    | inr (f, here) ↦ (λ h. ground arith, λ h. ground arith)
  ]

  -- In a store with one entry to an id, a claim returns a payload exactly when the id has an entry
  -- that is not past its deadline, is not leased, and has the owner, the kind and the payload.
  pub claim_iff :
      (s : PlanStore P) (id owner : String) (kind : PlanKind) (now : ℕ) (p : P)
      → Distinct s.entries
      → ((claim id owner kind now s).0 ≡ some p) ↔ (
          (e : PlanEntry P) × (entry_at id s ≡ some e)
          × (now ≤ e.expires_at)
          × IsOffered owner kind p e)
  claim_iff s id owner kind now p d = (
    λ ok.
        let (e, live, offered) = claim-IsOffered s d id owner kind now ok in
        let (here, fresh) = (live_split now id s e).0 live in (e, here, fresh, offered),
    λ h. claim_of_IsOffered s d id owner kind now h.0 ((live_split now id s h.0).1 (h.1, h.2)) h.3,
  )

  abbrev IsLeased : Option (PlanEntry P) → Type 0
  IsLeased none = Unit
  IsLeased (some e) = e.in_flight ≡ true

  -- No claim or take of the id can succeed: it is gone, or leased.
  abbrev pub IsHeld : String → PlanStore P → Type 0
  IsHeld id s = IsLeased (entry_at id s)

  -- The calls that may offer the id anew: a plan stored under it, the end of a lease on it.
  abbrev pub reopens : String → Call P → Bool
  reopens id (puts j _ _ _ _ _) = j == id
  reopens id (takes _ _) = false
  reopens id (claims _ _ _ _) = false
  reopens id (finishes j _ _) = j == id

  live-IsLeased :
      (now : ℕ) (o : Option (PlanEntry P)) → IsLeased o → IsLeased (unless (expired now) o)
  live-IsLeased now none h = tt
  live-IsLeased now (some e) h = ground arith

  put-IsHeld :
      (id j owner target : String) (kind : PlanKind) (payload : P) (now : ℕ) (s : PlanStore P)
      → Distinct s.entries
      → (j == id) ≡ false
      → IsHeld id s
      → IsHeld id (put_scoped j owner target kind payload now s).1
  put-IsHeld id j owner target kind payload now s d other h =
      elim (Option-cases (put_scoped j owner target kind payload now s).0) [
        | inl ok ↦
            rw (entry-put_scoped s d j owner target kind payload now id ok, other)
              (live-IsLeased now (entry_at id s) h)
        | inr (x, bad) ↦
            elim (entry-put_scoped_refused s d j owner target kind payload now id (λ e. cc)) [
              | inl e ↦ rw e (live-IsLeased now (entry_at id s) h)
              | inr e ↦ rw e h
            ]
      ]

  take-IsHeld :
      (id j : String) (now : ℕ) (s : PlanStore P)
      → Distinct s.entries
      → IsHeld id s
      → IsHeld id (take j now s).1
  take-IsHeld id j now s d h = elim (Option-cases (take j now s).0) [
    | inl refused ↦ rw (entry-take-none s d j now id refused) (live-IsLeased now (entry_at id s) h)
    | inr (p, ok) ↦ ground (arith, entry-take s d j now id ok, live-IsLeased now (entry_at id s) h)
  ]

  claim-IsHeld :
      (id j owner : String) (kind : PlanKind) (now : ℕ) (s : PlanStore P)
      → Distinct s.entries
      → IsHeld id s
      → IsHeld id (claim j owner kind now s).1
  claim-IsHeld id j owner kind now s d h = elim (Option-cases (claim j owner kind now s).0) [
    | inl refused ↦
        rw (entry-claim-none s d j owner kind now id refused) (live-IsLeased now (entry_at id s) h)
    | inr (p, ok) ↦
        let (e, live, offered) = claim-IsOffered s d j owner kind now ok in
        ground (
          arith,
          entry-claim s d j owner kind now e id ok live,
          live-IsLeased now (entry_at id s) h,
        )
  ]

  finish-IsHeld :
      (id j : String) (success : Bool) (now : ℕ) (s : PlanStore P)
      → (j == id) ≡ false
      → IsHeld id s
      → IsHeld id (finish j success now s)
  finish-IsHeld id j success now s other h = rw (entry-finish j success now s id, other) h

  step-IsHeld :
      (id : String) (s : PlanStore P) (c : Call P)
      → Distinct s.entries
      → reopens id c ≡ false
      → IsHeld id s
      → IsHeld id (step s c)
  unfolding step
  step-IsHeld id s (puts j owner target kind payload now) d r h =
      put-IsHeld id j owner target kind payload now s d r h
  step-IsHeld id s (takes j now) d r h = take-IsHeld id j now s d h
  step-IsHeld id s (claims j owner kind now) d r h = claim-IsHeld id j owner kind now s d h
  step-IsHeld id s (finishes j success now) d r h = finish-IsHeld id j success now s r h

  run-IsHeld :
      (id : String) (s : PlanStore P) (cs : List (Call P))
      → IsBounded s
      → All (λ c. reopens id c ≡ false) cs
      → IsHeld id s
      → IsHeld id (run s cs)
  unfolding run
  run-IsHeld id s [] v r h = h
  run-IsHeld id s (c ∷ cs) v r h =
      run-IsHeld id (step s c) cs (step-IsBounded s c v) r.1 (step-IsHeld id s c v.distinct r.0 h)

  pub claim_of_IsHeld :
      (id owner : String) (kind : PlanKind) (now : ℕ) (s : PlanStore P)
      → Distinct s.entries
      → IsHeld id s
      → (claim id owner kind now s).0 ≡ none
  claim_of_IsHeld id owner kind now s d h = elim (Option-cases (claim id owner kind now s).0) [
    | inl refused ↦ refused
    | inr (p, ok) ↦
        let (e, live, offered) = claim-IsOffered s d id owner kind now ok in
        absurd (ground (arith, offered.idle))
  ]

  pub take_of_IsHeld :
      (id : String) (now : ℕ) (s : PlanStore P)
      → Distinct s.entries
      → IsHeld id s
      → (take id now s).0 ≡ none
  unfolding take
  take_of_IsHeld id now s d h =
      ground (arith, entry-purge_expired s d now id, live-IsLeased now (entry_at id s) h)

  -- While a plan is leased, nobody gets it: from a store within its invariant, after a successful
  -- claim and any calls that neither store a plan under the id nor end a lease on it, every claim
  -- and every take of the id is refused, whoever asks and whenever.
  pub claim_excludes :
      (s : PlanStore P) (id owner : String) (kind : PlanKind) (now : ℕ) {p : P} (cs : List (Call P))
      → IsBounded s
      → (claim id owner kind now s).0 ≡ some p
      → All (λ c. reopens id c ≡ false) cs
      → (owner' : String) (kind' : PlanKind) (now' : ℕ)
      → ((claim id owner' kind' now' (run (claim id owner kind now s).1 cs)).0 ≡ none)
        × ((take id now' (run (claim id owner kind now s).1 cs)).0 ≡ none)
  claim_excludes s id owner kind now cs v ok r owner' kind' now' =
      let s' = (claim id owner kind now s).1 in
      let (e, live, offered) = claim-IsOffered s v.distinct id owner kind now ok in
      let v' : IsBounded s' = step_claim s id owner kind now v in
      let held : IsHeld id s' =
        rw
          (
            entry-claim s v.distinct id owner kind now e id ok live,
            (string_eq.equals_iff id id).1 refl,
          )
          refl in
      let kept = run-IsHeld id s' cs v' r held in
      let end = run-IsBounded s' cs v' in
      (
        claim_of_IsHeld id owner' kind' now' (run s' cs) end.distinct kept,
        take_of_IsHeld id now' (run s' cs) end.distinct kept,
      )
    where
      step_claim :
          (s : PlanStore P) (id owner : String) (kind : PlanKind) (now : ℕ)
          → IsBounded s
          → IsBounded (claim id owner kind now s).1
      step_claim s id owner kind now v =
          unfold step in step-IsBounded s (claims id owner kind now) v
