-- ===== src/Safety/Store/Settle.antt =====
-- The end of a lease decides whether the plan can be claimed again.
use aura_tracker_gcp.Prelude.{
  ℕ, ◌≤◌, String, Bool, true, false, none, some, arith, ◌≡◌, refl, string_eq, if◌then◌else◌,
}
use aura_tracker_gcp.Safety.Store.{PlanKind, PlanEntry, PlanStore, claim, finish}
use aura_tracker_gcp.Safety.Store.Lookup.{
  entry_at, live_at, leased, released, IsOffered, entry-claim, entry-finish,
}
use aura_tracker_gcp.Safety.Store.Invariant.{IsBounded, claim-IsBounded, finish-IsBounded}
use aura_tracker_gcp.Safety.Store.Claims.{claim_iff, claim_of_IsHeld, IsHeld}

module _ {P : Type 0} (s : PlanStore P) (v : IsBounded s) (id owner : String)
    (kind : PlanKind) where
  module _ (now : ℕ) (e : PlanEntry P) (here : entry_at id s ≡ some e) {p : P}
      (ok : (claim id owner kind now s).0 ≡ some p) where
    IsOffered-entry : (now ≤ e.expires_at) × IsOffered owner kind p e
    IsOffered-entry =
        let (a, there, fresh, o) = (claim_iff s id owner kind now p v.distinct).0 ok in
        (
          ground (arith, here, there),
          ground (arith, here, there, o.idle, o.same_owner, o.same_kind, o.same_payload),
        )

    leased_entry : entry_at id (claim id owner kind now s).1 ≡ some (leased e)
    leased_entry =
        let fresh = IsOffered-entry.0 in
        let live : live_at now id s ≡ some e = ground (arith, here) in
        ground (
          arith,
          entry-claim s v.distinct id owner kind now e id ok live,
          string_eq.equals_iff id id,
        )

    settled_entry :
        (success : Bool) (end : ℕ)
        → end ≤ e.expires_at
        → entry_at id (finish id success end (claim id owner kind now s).1)
          ≡ (if success then none else some (released e))
    settled_entry success end soon = ground (
      arith,
      leased_entry,
      entry-finish id success end (claim id owner kind now s).1 id,
      string_eq.equals_iff id id,
    )

    pub claim_after_finish :
        (success : Bool) (end now' : ℕ)
        → end ≤ e.expires_at
        → now' ≤ e.expires_at
        → (claim id owner kind now' (finish id success end (claim id owner kind now s).1)).0
          ≡ (if success then none else some p)
    claim_after_finish true end now' soon soon' =
        let v' =
          finish-IsBounded id true end (claim id owner kind now s).1
            (claim-IsBounded id owner kind now s v) in
        let s' = finish id true end (claim id owner kind now s).1 in
        let held : IsHeld id s' = rw (settled_entry true end soon) tt in
        claim_of_IsHeld id owner kind now' s' v'.distinct held
    claim_after_finish false end now' soon soon' =
        let v' =
          finish-IsBounded id false end (claim id owner kind now s).1
            (claim-IsBounded id owner kind now s v) in
        let s' = finish id false end (claim id owner kind now s).1 in
        let (_, o) = IsOffered-entry in
        (claim_iff s' id owner kind now' p v'.distinct).1 (
          released e,
          settled_entry false end soon,
          soon',
          record {
            idle = refl;
            same_owner = o.same_owner;
            same_kind = o.same_kind;
            same_payload = o.same_payload;
          },
        )
