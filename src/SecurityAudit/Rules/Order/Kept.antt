-- ===== src/SecurityAudit/Rules/Order/Kept.antt =====
-- Which findings an audit keeps, and in which order.
use Prim.Native.String.{String}
use aura_tracker_gcp.Prelude.{
  true, false, List, [], ◌∷◌, ◌≡◌, ◌≢◌, refl, sym, subst, ap, arith, ◌==◌, string_eq, nat_eq, ltb,
  All, Member, inl, inr, Bool-cases,
}
use aura_tracker_gcp.GoSort.{slice_stable, sort_in, string_lt}
use aura_tracker_gcp.GoSort.Strings.{string_lt-IsTotal}
use aura_tracker_gcp.GoSort.Keys.{by_key, by_key-IsOrder, on_key-IsOrder, ltb-IsTotal}
use aura_tracker_gcp.GoSort.Sorted.{
  IsOrder, IsSorted, slice_stable-Member, slice_stable-IsSorted, sort_in-All,
}
use aura_tracker_gcp.SecurityAudit.Report.{SecurityFinding}
use aura_tracker_gcp.SecurityAudit.Rules.Roles.{contains}
use aura_tracker_gcp.SecurityAudit.Rules.Order.{
  severity_rank, finding_less, first_of_each_id, deduplicate_and_sort,
}

-- Some finding of the list has the id.
abbrev pub HasId : String → List SecurityFinding → Type 0
HasId id findings = (f : SecurityFinding) × Member f findings × (f.id ≡ id)

-- No id stands twice.
abbrev pub DistinctIds : List SecurityFinding → Type 0
DistinctIds [] = Unit
DistinctIds (f ∷ rest) = All (λ g. g.id ≢ f.id) rest × DistinctIds rest

first-known :
    (seen : List String) (g : SecurityFinding) (rest : List SecurityFinding)
    → contains seen g.id ≡ true
    → first_of_each_id seen (g ∷ rest) ≡ first_of_each_id seen rest
unfolding first_of_each_id
first-known seen g rest h = ground arith

first-new :
    (seen : List String) (g : SecurityFinding) (rest : List SecurityFinding)
    → contains seen g.id ≡ false
    → first_of_each_id seen (g ∷ rest) ≡ g ∷ first_of_each_id (g.id ∷ seen) rest
unfolding first_of_each_id
first-new seen g rest h = ground arith

first-Member :
    (seen : List String) (findings : List SecurityFinding) (f : SecurityFinding)
    → Member f (first_of_each_id seen findings)
    → Member f findings × (contains seen f.id ≡ false)
unfolding first_of_each_id contains
first-Member seen [] f m = elim m [ ]
first-Member seen (g ∷ rest) f m = elim (Bool-cases (contains seen g.id)) [
  | inl known ↦
      let (there, new) =
        first-Member seen rest f (subst (Member f) (first-known seen g rest known) m) in
      (inr there, new)
  | inr fresh ↦ elim (subst (Member f) (first-new seen g rest fresh) m) [
    | inl same ↦
        (inl same, subst (λ (h : SecurityFinding). contains seen h.id ≡ false) (sym same) fresh)
    | inr later ↦
        let (there, new) = first-Member (g.id ∷ seen) rest f later in (inr there, ground arith)
  ]
]

first-HasId :
    (seen : List String) (findings : List SecurityFinding) (f : SecurityFinding)
    → Member f findings
    → contains seen f.id ≡ false
    → HasId f.id (first_of_each_id seen findings)
unfolding contains
first-HasId seen [] f m new = elim m [ ]
first-HasId seen (g ∷ rest) f m new = elim (Bool-cases (contains seen g.id)) [
  | inl known ↦ subst (HasId f.id) (sym (first-known seen g rest known)) (elim m [
    | inl same ↦ ground (arith, ap (λ (h : SecurityFinding). h.id) same)
    | inr there ↦ first-HasId seen rest f there new
  ])
  | inr fresh ↦
      subst (HasId f.id) (sym (first-new seen g rest fresh)) (elim (Bool-cases (g.id == f.id)) [
        | inl same ↦ (g, inl refl, (string_eq.equals_iff g.id f.id).0 same)
        | inr other ↦ elim m [
          | inl same ↦ (g, inl refl, sym (ap (λ (h : SecurityFinding). h.id) same))
          | inr there ↦
              let (h, at, named) = first-HasId (g.id ∷ seen) rest f there (ground arith) in
              (h, inr at, named)
        ]
      ])
]

-- All of a list, from its members, and back.
All-of :
    (P : SecurityFinding → Type 0) (fs : List SecurityFinding)
    → ((f : SecurityFinding) → Member f fs → P f)
    → All P fs
All-of P [] h = tt
All-of P (f ∷ fs) h = (h f (inl refl), All-of P fs (λ g m. h g (inr m)))

from_all :
    (P : SecurityFinding → Type 0) (gs : List SecurityFinding)
    → All P gs
    → (g : SecurityFinding) → Member g gs
    → P g
from_all P [] a g m = elim m [ ]
from_all P (h ∷ gs) a g (inl same) = subst P (sym same) a.0
from_all P (h ∷ gs) a g (inr m) = from_all P gs a.1 g m

first-DistinctIds :
    (seen : List String) (findings : List SecurityFinding)
    → DistinctIds (first_of_each_id seen findings)
unfolding contains first_of_each_id
first-DistinctIds seen [] = tt
first-DistinctIds seen (g ∷ rest) = elim (Bool-cases (contains seen g.id)) [
  | inl known ↦
      subst DistinctIds (sym (first-known seen g rest known)) (first-DistinctIds seen rest)
  | inr fresh ↦ subst DistinctIds (sym (first-new seen g rest fresh)) (
    All-of (λ f. f.id ≢ g.id) (first_of_each_id (g.id ∷ seen) rest)
        (λ f m same.
          let (there, new) = first-Member (g.id ∷ seen) rest f m in
          ground (arith, string_eq.equals_iff g.id f.id)),
    first-DistinctIds (g.id ∷ seen) rest,
  )
]

sort_in-DistinctIds :
    (f : SecurityFinding) (fs : List SecurityFinding)
    → All (λ g. g.id ≢ f.id) fs
    → DistinctIds fs
    → DistinctIds (sort_in finding_less f fs)
unfolding sort_in
sort_in-DistinctIds f [] a d = (tt, tt)
sort_in-DistinctIds f (g ∷ fs) a d = elim (Bool-cases (finding_less g f)) [
  | inl below ↦ subst DistinctIds (sym (sort_in-below f g fs below)) (
    sort_in-All finding_less (λ h. h.id ≢ g.id) f fs (λ same. a.0 (sym same)) d.0,
    sort_in-DistinctIds f fs a.1 d.1,
  )
  | inr above ↦ subst DistinctIds (sym (sort_in-above f g fs above)) (a, d)
]
  where
    sort_in-below :
        (f g : SecurityFinding) (fs : List SecurityFinding)
        → finding_less g f ≡ true
        → sort_in finding_less f (g ∷ fs) ≡ g ∷ sort_in finding_less f fs
    sort_in-below f g fs h = rw h refl

    sort_in-above :
        (f g : SecurityFinding) (fs : List SecurityFinding)
        → finding_less g f ≡ false
        → sort_in finding_less f (g ∷ fs) ≡ f ∷ g ∷ fs
    sort_in-above f g fs h = rw h refl

slice_stable-DistinctIds :
    (fs : List SecurityFinding) → DistinctIds fs → DistinctIds (slice_stable finding_less fs)
unfolding slice_stable
slice_stable-DistinctIds [] d = tt
slice_stable-DistinctIds (f ∷ fs) d =
    let sorted = slice_stable finding_less fs in
    sort_in-DistinctIds f sorted
      (All-of (λ g. g.id ≢ f.id) sorted
        (λ g m. from_all (λ h. h.id ≢ f.id) fs d.0 g ((slice_stable-Member finding_less g fs).0 m)))
      (slice_stable-DistinctIds fs d.1)

pub finding_less-IsOrder : IsOrder finding_less
unfolding finding_less
finding_less-IsOrder =
    by_key-IsOrder (λ (f : SecurityFinding). severity_rank f.severity) ltb
      (by_key (λ (f : SecurityFinding). f.category) string_lt
        (by_key (λ (f : SecurityFinding). f.rule_id) string_lt
          (λ a b. string_lt a.resource b.resource)))
      ltb-IsTotal
      (by_key-IsOrder (λ (f : SecurityFinding). f.category) string_lt
        (by_key (λ (f : SecurityFinding). f.rule_id) string_lt
          (λ a b. string_lt a.resource b.resource))
        string_lt-IsTotal
        (by_key-IsOrder (λ (f : SecurityFinding). f.rule_id) string_lt
          (λ a b. string_lt a.resource b.resource) string_lt-IsTotal
          (on_key-IsOrder (λ (f : SecurityFinding). f.resource) string_lt string_lt-IsTotal.order)))

-- The findings of an audit, after the duplicates are dropped and the rest is sorted: each is one of
-- the findings that the rules gave, each id that they gave is there exactly once, and none stands
-- before one that is less by severity, category, rule and resource.
pub deduplicate_and_sort_kept :
    (findings : List SecurityFinding)
    → IsSorted finding_less (deduplicate_and_sort findings)
      × DistinctIds (deduplicate_and_sort findings)
      × ((f : SecurityFinding) → Member f (deduplicate_and_sort findings) → Member f findings)
      × ((f : SecurityFinding) → Member f findings → HasId f.id (deduplicate_and_sort findings))
unfolding deduplicate_and_sort contains
deduplicate_and_sort_kept findings =
    let firsts = first_of_each_id [] findings in
    (
      slice_stable-IsSorted finding_less finding_less-IsOrder firsts,
      slice_stable-DistinctIds firsts (first-DistinctIds [] findings),
      (λ f m. (first-Member [] findings f ((slice_stable-Member finding_less f firsts).0 m)).0),
      (λ f m.
          let (g, there, named) = first-HasId [] findings f m refl in
          (g, (slice_stable-Member finding_less g firsts).1 there, named)),
    )
