-- ===== src/SecurityAudit/Build/Recommended.antt =====
-- What a recommendation of a report stands for.
use Prim.Native.String.{String}
use aura_tracker_gcp.Prelude.{
  ◌⊎◌, subst, ℕ, zero, suc, ◌+◌, ◌≤◌, ◌<◌, none, some, List, [], ◌∷◌, ◌≡◌, refl, sym, ◌∙◌, ap,
  arith, string_eq, nat_eq, length, take, length-take, Member, inl, inr,
}
use aura_tracker_gcp.GoMap.{lookup}
use aura_tracker_gcp.GoSort.{slice_stable, sort_strings}
use aura_tracker_gcp.GoSort.Sorted.{slice_stable-Member}
use aura_tracker_gcp.SecurityAudit.Report.{SecurityFinding, SecurityRecommendation}
use aura_tracker_gcp.SecurityAudit.Rules.Order.{severity_rank}
use aura_tracker_gcp.SecurityAudit.Build.Groups.{
  of_rule, ids_of, of_rule-rule, joins, group_findings-joins, IsWorst, joins-IsJoined,
  group_findings-Distinct,
}
use aura_tracker_gcp.SecurityAudit.Build.{
  Group, group_of, join_group, group_findings, recommendation_of, recommendation_less, number_from,
  recommendations_of, RangeGroups, build_recommendations,
}

-- The recommendation is on one rule, one that has findings: it bears the title and the action of its
-- first finding and the severity of its worst one, and counts and names exactly its findings.
abbrev pub Covers : List SecurityFinding → SecurityRecommendation → Type 0
Covers findings recommendation =
    (first : SecurityFinding) × (others : List SecurityFinding) × (of_rule first.rule_id findings
      ≡ first ∷ others)
    × (recommendation.title ≡ first.title)
    × (recommendation.action ≡ first.recommendation)
    × (recommendation.affected_count ≡ length (first ∷ others))
    × (recommendation.finding_ids ≡ sort_strings (ids_of (first ∷ others)))
    × ((worst : SecurityFinding) × Member worst (first ∷ others)
        × (recommendation.severity ≡ worst.severity))
    × IsWorst recommendation.severity (first ∷ others)

-- The recommendations differ in their priority only.
abbrev Renumbered : SecurityRecommendation → SecurityRecommendation → Type 0
Renumbered a b = a ≡ record b { priority = a.priority }

number_from-Member :
    (n : ℕ) (recommendations : List SecurityRecommendation) (r : SecurityRecommendation)
    → Member r (number_from n recommendations)
    → ((s : SecurityRecommendation) × Member s recommendations × Renumbered r s)
      × (n ≤ r.priority)
      × (r.priority < n + length recommendations)
unfolding number_from
number_from-Member n [] r m = elim m [ ]
number_from-Member n (first ∷ rest) r (inl same) =
    let p : r.priority ≡ n = ap (λ (x : SecurityRecommendation). x.priority) same in
    (
      (first, inl refl, same ∙ ap (λ k. record first { priority = k }) (sym p)),
      ground arith,
      ground arith,
    )
number_from-Member n (first ∷ rest) r (inr m) =
    let ((s, there, same), low, high) = number_from-Member (n + 1) rest r m in
    ((s, inr there, same), ground arith, ground arith)

take-Member :
    (n : ℕ) (rs : List SecurityRecommendation) (r : SecurityRecommendation)
    → Member r (take n rs)
    → Member r rs
take-Member zero rs r m = elim m [ ]
take-Member (suc n) [] r m = elim m [ ]
take-Member (suc n) (first ∷ rest) r (inl same) = inl same
take-Member (suc n) (first ∷ rest) r (inr m) = inr (take-Member n rest r m)

of_entry :
    (entries : List (String × Group)) (r : SecurityRecommendation)
    → Member r (recommendations_of entries)
    → (rule : String) × (value : Group) × Member (rule, value) entries
      × (r ≡ recommendation_of value)
of_entry [] r m = elim m [ ]
of_entry ((rule, value) ∷ rest) r (inl same) = (rule, value, inl refl, same)
of_entry ((rule, value) ∷ rest) r (inr m) =
    let (k, v, there, same) = of_entry rest r m in (k, v, inr there, same)

list-cases :
    (fs : List SecurityFinding)
    → (fs ≡ [])
      ⊎ ((first : SecurityFinding) × (others : List SecurityFinding) × (fs ≡ first ∷ others))
list-cases [] = inl refl
list-cases (first ∷ others) = inr (first, others, refl)

length-ids_of : (fs : List SecurityFinding) → length (ids_of fs) ≡ length fs
length-ids_of [] = refl
length-ids_of (f ∷ fs) = ap suc (length-ids_of fs)

Covers-of_group :
    (findings : List SecurityFinding) (rule : String) (value : Group)
    (recommendation : SecurityRecommendation)
    → joins (of_rule rule findings) none ≡ some value
    → Renumbered recommendation (recommendation_of value)
    → Covers findings recommendation
unfolding recommendation_of join_group group_of
Covers-of_group findings rule value recommendation h same =
    elim (list-cases (of_rule rule findings)) [
      | inl empty ↦
          let absurd : none ≡ some value = sym (ap (λ fs. joins fs none) empty) ∙ h in ground arith
      | inr (first, others, found) ↦
          let ruled : first.rule_id ≡ rule =
            of_rule-rule rule findings first (subst (Member first) (sym found) (inl refl)) in
          let start = join_group first (group_of first none) in
          let j = joins-IsJoined others start value (sym (ap (λ fs. joins fs none) found) ∙ h) in
          let begun : start.severity ≡ first.severity = ground arith in
          let named : recommendation.severity ≡ value.severity =
            ap (λ (x : SecurityRecommendation). x.severity) same in
          (
            first,
            others,
            ap (λ r. of_rule r findings) ruled ∙ found,
            ap (λ (x : SecurityRecommendation). x.title) same ∙ j.same_title,
            ap (λ (x : SecurityRecommendation). x.action) same ∙ j.same_action,
            ap (λ (x : SecurityRecommendation). x.affected_count) same
                ∙ ap length j.all_ids
                ∙ length-ids_of (first ∷ others),
            ap (λ (x : SecurityRecommendation). x.finding_ids) same ∙ ap sort_strings j.all_ids,
            elim j.from_one [
              | inl is ↦ (first, inl refl, named ∙ is ∙ begun)
              | inr (f, there, is) ↦ (f, inr there, named ∙ is)
            ],
            subst (λ severity. IsWorst severity (first ∷ others)) (sym named)
                (
                  subst (λ severity. severity_rank value.severity ≤ severity_rank severity) begun
                      j.below_before,
                  j.worst,
                ),
          )
    ]

-- In whatever order the groups are ranged over, a recommendation of a report is on one rule, one that
-- has findings: it bears the title and the action of the first of them and the severity of the worst,
-- counts them all and names their ids in order; its priority is from 1 to 10.
pub build_recommendations-Covers :
    (range_groups : RangeGroups) (findings : List SecurityFinding)
    (recommendation : SecurityRecommendation)
    → Member recommendation (build_recommendations range_groups findings)
    → Covers findings recommendation
      × (1 ≤ recommendation.priority)
      × (recommendation.priority ≤ 10)
unfolding build_recommendations lookup
build_recommendations-Covers range_groups findings recommendation m =
    let groups = group_findings findings [] in
    let entries = range_groups.entries groups in
    let recommended = recommendations_of entries in
    let sorted = slice_stable recommendation_less recommended in
    let ((s, in_ten, renumbered), low, high) =
      number_from-Member 1 (take 10 sorted) recommendation m in
    let there =
      (slice_stable-Member recommendation_less s recommended).0 (take-Member 10 sorted s in_ten) in
    let (rule, value, in_range, same) = of_entry entries s there in
    let stored =
      (range_groups.entry_iff groups (group_findings-Distinct findings [] tt) rule value).0
        in_range in
    (
      Covers-of_group findings rule value recommendation
          (sym (group_findings-joins rule findings []) ∙ stored)
          (renumbered
            ∙ ap (λ (x : SecurityRecommendation). record x { priority = recommendation.priority })
                same),
      low,
      omega (arith, high, length-take 10 sorted),
    )
