-- ===== src/SecurityAudit/Build/Listed.antt =====
-- Which findings the recommendations of a report name.
use Prim.Native.String.{String}
use aura_tracker_gcp.Prelude.{
  ℕ, zero, suc, ◌+◌, none, some, List, [], ◌∷◌, ◌≡◌, refl, sym, ◌∙◌, ap, subst, arith, ◌==◌,
  string_eq, nat_eq, length, take, Member, ◌⊎◌, inl, inr, Bool-cases,
}
use aura_tracker_gcp.GoMap.{lookup}
use aura_tracker_gcp.GoSort.{slice_stable, string_lt}
use aura_tracker_gcp.GoSort.Sorted.{slice_stable-Member}
use aura_tracker_gcp.SecurityAudit.Report.{SecurityFinding, SecurityRecommendation}
use aura_tracker_gcp.SecurityAudit.Build.Groups.{
  of_rule, ids_of, joins, group_findings-joins, joins-IsJoined, group_findings-Distinct,
}
use aura_tracker_gcp.SecurityAudit.Build.{
  Group, group_of, join_group, group_findings, recommendation_of, recommendation_less, number_from,
  recommendations_of, RangeGroups, build_recommendations,
}

Member-of_rule :
    (findings : List SecurityFinding) (f : SecurityFinding)
    → Member f findings
    → Member f (of_rule f.rule_id findings)
Member-of_rule [] f m = elim m [ ]
Member-of_rule (finding ∷ rest) f m = elim (Bool-cases (finding.rule_id == f.rule_id)) [
  | inl same ↦ rw same (elim m [ inl is ↦ inl is | inr later ↦ inr (Member-of_rule rest f later) ])
  | inr other ↦ rw other (elim m [
    | inr later ↦ Member-of_rule rest f later
    | inl is ↦
        let same : f.rule_id ≡ finding.rule_id = ap (λ (x : SecurityFinding). x.rule_id) is in
        ground (arith, string_eq.equals_iff finding.rule_id f.rule_id)
  ])
]

Member-ids_of :
    (fs : List SecurityFinding) (f : SecurityFinding) → Member f fs → Member f.id (ids_of fs)
Member-ids_of [] f m = elim m [ ]
Member-ids_of (g ∷ rest) f (inl is) = inl (ap (λ (x : SecurityFinding). x.id) is)
Member-ids_of (g ∷ rest) f (inr later) = inr (Member-ids_of rest f later)

joins-some :
    (fs : List SecurityFinding) (before : Group)
    → (value : Group) × (joins fs (some before) ≡ some value)
unfolding group_of
joins-some [] before = (before, refl)
joins-some (f ∷ fs) before = joins-some fs (join_group f before)

-- The findings of a rule make one group, which has all their ids.
joined :
    (fs : List SecurityFinding) (f : SecurityFinding)
    → Member f fs
    → (value : Group) × (joins fs none ≡ some value) × Member f.id value.ids
unfolding join_group group_of
joined [] f m = elim m [ ]
joined (first ∷ others) f m =
    let start = join_group first (group_of first none) in
    let (value, made) = joins-some others start in
    let j = joins-IsJoined others start value made in
    (value, made, subst (Member f.id) (sym j.all_ids) (Member-ids_of (first ∷ others) f m))

Member-recommendations_of :
    (entries : List (String × Group)) (rule : String) (value : Group)
    → Member {A = String × Group} (rule, value) entries
    → Member (recommendation_of value) (recommendations_of entries)
Member-recommendations_of [] rule value m = elim m [ ]
Member-recommendations_of ((k, v) ∷ rest) rule value (inl is) =
    inl (ap (λ (e : String × Group). recommendation_of e.1) is)
Member-recommendations_of ((k, v) ∷ rest) rule value (inr m) =
    inr (Member-recommendations_of rest rule value m)

-- A list that is cut either has so many elements or keeps them all.
take-Member_or :
    (n : ℕ) (rs : List SecurityRecommendation) (r : SecurityRecommendation)
    → Member r rs
    → (length (take n rs) ≡ n) ⊎ Member r (take n rs)
take-Member_or zero rs r m = inl refl
take-Member_or (suc n) [] r m = elim m [ ]
take-Member_or (suc n) (first ∷ rest) r (inl is) = inr (inl is)
take-Member_or (suc n) (first ∷ rest) r (inr m) = elim (take-Member_or n rest r m) [
  | inl full ↦ inl (ap suc full)
  | inr there ↦ inr (inr there)
]

length-number_from :
    (n : ℕ) (rs : List SecurityRecommendation) → length (number_from n rs) ≡ length rs
unfolding number_from
length-number_from n [] = refl
length-number_from n (first ∷ rest) = ap suc (length-number_from (n + 1) rest)

Member-number_from :
    (n : ℕ) (rs : List SecurityRecommendation) (r : SecurityRecommendation)
    → Member r rs
    → (s : SecurityRecommendation) × Member s (number_from n rs) × (s.finding_ids ≡ r.finding_ids)
unfolding number_from
Member-number_from n [] r m = elim m [ ]
Member-number_from n (first ∷ rest) r (inl is) = (
  record first { priority = n },
  inl refl,
  ap (λ (x : SecurityRecommendation). x.finding_ids) (sym is),
)
Member-number_from n (first ∷ rest) r (inr m) =
    let (s, there, same) = Member-number_from (n + 1) rest r m in (s, inr there, same)

-- In whatever order the groups are ranged over, some recommendation names each finding, unless there
-- are ten recommendations.
pub build_recommendations-Names :
    (range_groups : RangeGroups) (findings : List SecurityFinding) (f : SecurityFinding)
    → Member f findings
    → (length (build_recommendations range_groups findings) ≡ 10)
      ⊎ ((recommendation : SecurityRecommendation) × Member recommendation
            (build_recommendations range_groups findings)
          × Member f.id recommendation.finding_ids)
unfolding build_recommendations lookup recommendation_of
build_recommendations-Names range_groups findings f m =
    let groups = group_findings findings [] in
    let entries = range_groups.entries groups in
    let sorted = slice_stable recommendation_less (recommendations_of entries) in
    let (value, made, has) = joined (of_rule f.rule_id findings) f (Member-of_rule findings f m) in
    let in_range =
      (range_groups.entry_iff groups (group_findings-Distinct findings [] tt) f.rule_id value).1
        (group_findings-joins f.rule_id findings [] ∙ made) in
    let there =
      (slice_stable-Member recommendation_less (recommendation_of value)
          (recommendations_of entries)).1
        (Member-recommendations_of entries f.rule_id value in_range) in
    elim (take-Member_or 10 sorted (recommendation_of value) there) [
      | inl full ↦ inl (length-number_from 1 (take 10 sorted) ∙ full)
      | inr kept ↦
          let (s, listed, same) =
            Member-number_from 1 (take 10 sorted) (recommendation_of value) kept in
          inr (
            s,
            listed,
            subst (Member f.id) (sym same) ((slice_stable-Member string_lt f.id value.ids).1 has),
          )
    ]
