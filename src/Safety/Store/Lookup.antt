-- ===== src/Safety/Store/Lookup.antt =====
-- What each method of the plan store leaves under each plan id.
use aura_tracker_gcp.Prelude.{
  ℕ, String, Bool, true, false, ◌||◌, Option, none, some, arith, ◌≡◌, ◌==◌, if◌then◌else◌,
  Option-cases, inl, inr, string_eq, ◌⊎◌,
}
use aura_tracker_gcp.GoMap.{
  lookup, Distinct, unless, lookup-insert, lookup-delete, lookup-delete_where,
}
use aura_tracker_gcp.Safety.Store.{
  PlanKind, PlanEntry, PlanStore, new_entry, expired, purge_expired, put_scoped, take, claim,
  finish, kind_equals_iff, kind_eq,
}

module _ {P : Type 0} where
  abbrev pub entry_at : String → PlanStore P → Option (PlanEntry P)
  entry_at id s = lookup id s.entries

  abbrev pub live_at : ℕ → String → PlanStore P → Option (PlanEntry P)
  live_at now id s = unless (expired now) (entry_at id s)

  -- The entry with its lease taken.
  abbrev pub leased : PlanEntry P → PlanEntry P
  leased e = record e { in_flight = true }

  abbrev pub released : PlanEntry P → PlanEntry P
  released e = record e { in_flight = false }

  -- A plan that `owner` may claim for `kind`.
  pub record IsOffered (owner : String) (kind : PlanKind) (payload : P) (e : PlanEntry P)
      : Type 0 where
    pub idle : e.in_flight ≡ false
    pub same_owner : e.owner ≡ owner
    pub same_kind : e.kind ≡ kind
    pub same_payload : e.payload ≡ payload

module _ {P : Type 0} (s : PlanStore P) (d : Distinct s.entries) where
  pub entry-purge_expired :
      (now : ℕ) (j : String) → entry_at j (purge_expired now s) ≡ live_at now j s
  unfolding purge_expired
  entry-purge_expired now j = lookup-delete_where (expired now) j s.entries d

  pub entry-put_scoped :
      (id owner target : String) (kind : PlanKind) (payload : P) (now : ℕ) (j : String)
      → (put_scoped id owner target kind payload now s).0 ≡ none
      → entry_at j (put_scoped id owner target kind payload now s).1
        ≡ (if id == j then some (new_entry now owner target kind payload) else live_at now j s)
  unfolding put_scoped
  entry-put_scoped id owner target kind payload now j ok = ground (
    arith,
    lookup-insert id j (new_entry now owner target kind payload) (purge_expired now s).entries,
    entry-purge_expired now j,
  )

  -- A refused plan changes nothing but that expired plans may go.
  pub entry-put_scoped_refused :
      (id owner target : String) (kind : PlanKind) (payload : P) (now : ℕ) (j : String)
      → ((put_scoped id owner target kind payload now s).0 ≡ none → ⊥)
      → (entry_at j (put_scoped id owner target kind payload now s).1 ≡ live_at now j s)
        ⊎ (entry_at j (put_scoped id owner target kind payload now s).1 ≡ entry_at j s)
  unfolding put_scoped
  entry-put_scoped_refused id owner target kind payload now j bad =
      ground (arith, entry-purge_expired now j)

  pub entry-take :
      (id : String) (now : ℕ) (j : String) {p : P}
      → (take id now s).0 ≡ some p
      → entry_at j (take id now s).1 ≡ (if id == j then none else live_at now j s)
  unfolding take
  entry-take id now j ok =
      ground (arith, lookup-delete id j (purge_expired now s).entries, entry-purge_expired now j)

  pub entry-take-none :
      (id : String) (now : ℕ) (j : String)
      → (take id now s).0 ≡ none
      → entry_at j (take id now s).1 ≡ live_at now j s
  unfolding take
  entry-take-none id now j none_taken = ground (arith, entry-purge_expired now j)

  module _ (id owner : String) (kind : PlanKind) (now : ℕ) where
    pub claim-IsOffered :
        {p : P}
        → (claim id owner kind now s).0 ≡ some p
        → (e : PlanEntry P) × (live_at now id s ≡ some e) × IsOffered owner kind p e
    unfolding claim
    claim-IsOffered ok = elim (Option-cases (live_at now id s)) [
      | inl gone ↦ ground (arith, entry-purge_expired now id)
      | inr (e, here) ↦ (
        e,
        here,
        ground (
          arith,
          entry-purge_expired now id,
          string_eq.equals_iff e.owner owner,
          kind_equals_iff e.kind kind,
        ),
      )
    ]

    pub claim_of_IsOffered :
        {p : P} (e : PlanEntry P)
        → live_at now id s ≡ some e
        → IsOffered owner kind p e
        → (claim id owner kind now s).0 ≡ some p
    unfolding claim
    claim_of_IsOffered e here o = ground (
      arith,
      entry-purge_expired now id,
      string_eq.equals_iff e.owner owner,
      kind_equals_iff e.kind kind,
    )

    pub entry-claim :
        {p : P} (e : PlanEntry P) (j : String)
        → (claim id owner kind now s).0 ≡ some p
        → live_at now id s ≡ some e
        → entry_at j (claim id owner kind now s).1
          ≡ (if id == j then some (leased e) else live_at now j s)
    unfolding claim
    entry-claim e j ok here = ground (
      arith,
      entry-purge_expired now id,
      entry-purge_expired now j,
      lookup-insert id j (leased e) (purge_expired now s).entries,
    )

    pub entry-claim-none :
        (j : String)
        → (claim id owner kind now s).0 ≡ none
        → entry_at j (claim id owner kind now s).1 ≡ live_at now j s
    unfolding claim
    entry-claim-none j refused = ground (arith, entry-purge_expired now j)

abbrev pub after_finish : {P : Type 0} → Bool → ℕ → Option (PlanEntry P) → Option (PlanEntry P)
after_finish success now none = none
after_finish success now (some e) = if success || expired now e then none else some (released e)

-- A lease ends under its own id only; no other plan is purged.
pub entry-finish :
    {P : Type 0} (id : String) (success : Bool) (now : ℕ) (s : PlanStore P) (j : String)
    → entry_at j (finish id success now s)
      ≡ (if id == j then after_finish success now (entry_at id s) else entry_at j s)
unfolding finish
entry-finish id success now s j = elim (Option-cases (entry_at id s)) [
  | inl gone ↦ ground (arith, string_eq.equals_iff id j)
  | inr (e, here) ↦
      ground (arith, lookup-insert id j (released e) s.entries, lookup-delete id j s.entries)
]
