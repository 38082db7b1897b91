-- ===== src/SecurityAudit/Build/Groups.antt =====
-- What the loop over the findings gathers for one rule.
use Prim.Native.String.{String}
use aura_tracker_gcp.Prelude.{
  ◌≤◌, true, false, Option, some, List, [], ◌∷◌, ◌++◌, ◌≡◌, refl, sym, subst, ◌∙◌, ap, arith, ◌==◌,
  string_eq, if◌then◌else◌, ltb, All, Member, ◌⊎◌, inl, inr, Bool-cases,
}
use aura_tracker_gcp.GoMap.{GoMap, lookup, insert, lookup-insert, Distinct, insert-Distinct}
use aura_tracker_gcp.SecurityAudit.Report.{SecurityFinding}
use aura_tracker_gcp.SecurityAudit.Rules.Order.{severity_rank}
use aura_tracker_gcp.SecurityAudit.Build.{Group, group_of, join_group, group_findings}

-- The findings of a rule, in order.
abbrev pub of_rule : String → List SecurityFinding → List SecurityFinding
of_rule rule [] = []
of_rule rule (finding ∷ rest) =
    let later = of_rule rule rest in if finding.rule_id == rule then finding ∷ later else later

abbrev pub ids_of : List SecurityFinding → List String
ids_of [] = []
ids_of (finding ∷ rest) = finding.id ∷ ids_of rest

pub of_rule-rule :
    (rule : String) (findings : List SecurityFinding) (f : SecurityFinding)
    → Member f (of_rule rule findings)
    → f.rule_id ≡ rule
of_rule-rule rule [] f m = elim m [ ]
of_rule-rule rule (finding ∷ rest) f m = elim (Bool-cases (finding.rule_id == rule)) [
  | inr other ↦
      of_rule-rule rule rest f (
        subst (λ b. Member f (if b then finding ∷ of_rule rule rest else of_rule rule rest)) other
          m)
  | inl same ↦
      elim (subst (λ b. Member f (if b then finding ∷ of_rule rule rest else of_rule rule rest))
        same m) [
          | inl is ↦
              ap (λ (x : SecurityFinding). x.rule_id) is
              ∙ (string_eq.equals_iff finding.rule_id rule).0 same
          | inr later ↦ of_rule-rule rule rest f later
        ]
]

-- The findings join the group one after the other.
abbrev pub joins : List SecurityFinding → Option Group → Option Group
joins [] found = found
joins (finding ∷ rest) found = joins rest (some (join_group finding (group_of finding found)))

pub group_findings-joins :
    (rule : String) (findings : List SecurityFinding) (groups : GoMap String Group)
    → lookup rule (group_findings findings groups)
      ≡ joins (of_rule rule findings) (lookup rule groups)
unfolding group_findings
group_findings-joins rule [] groups = refl
group_findings-joins rule (finding ∷ rest) groups =
    let joined = join_group finding (group_of finding (lookup finding.rule_id groups)) in
    let first =
      group_findings-joins rule rest (insert finding.rule_id joined groups)
      ∙ ap (joins (of_rule rule rest)) (lookup-insert finding.rule_id rule joined groups) in
    elim (Bool-cases (finding.rule_id == rule)) [
      | inr other ↦ first ∙ step_other finding rest joined (lookup rule groups) other
      | inl same ↦
          first
          ∙ step_same finding rest joined (lookup rule groups) same (
              ap (λ r. join_group finding (group_of finding (lookup r groups)))
                ((string_eq.equals_iff finding.rule_id rule).0 same))
    ]
  where
    step_other :
        (finding : SecurityFinding) (rest : List SecurityFinding) (joined : Group)
        (old : Option Group)
        → (finding.rule_id == rule) ≡ false
        → joins (of_rule rule rest) (if finding.rule_id == rule then some joined else old)
          ≡ joins (of_rule rule (finding ∷ rest)) old
    step_other finding rest joined old h = rw h refl

    step_same :
        (finding : SecurityFinding) (rest : List SecurityFinding) (joined : Group)
        (old : Option Group)
        → (finding.rule_id == rule) ≡ true
        → joined ≡ join_group finding (group_of finding old)
        → joins (of_rule rule rest) (if finding.rule_id == rule then some joined else old)
          ≡ joins (of_rule rule (finding ∷ rest)) old
    step_same finding rest joined old h k = rw h (ap (λ g. joins (of_rule rule rest) (some g)) k)

append_assoc :
    (xs : List String) (x : String) (ys : List String) → (xs ++ x ∷ []) ++ ys ≡ xs ++ x ∷ ys
append_assoc [] x ys = refl
append_assoc (y ∷ xs) x ys = ap (λ zs. y ∷ zs) (append_assoc xs x ys)

append_nil : (xs : List String) → xs ++ [] ≡ xs
append_nil [] = refl
append_nil (x ∷ xs) = ap (λ zs. x ∷ zs) (append_nil xs)

-- A severity of the list is as bad as all of them.
abbrev pub IsWorst : String → List SecurityFinding → Type 0
IsWorst severity findings = All (λ f. severity_rank severity ≤ severity_rank f.severity) findings

-- What a group becomes as findings join it.
pub record IsJoined (before : Group) (findings : List SecurityFinding) (after : Group)
    : Type 0 where
  pub same_title : after.title ≡ before.title
  pub same_action : after.action ≡ before.action
  pub all_ids : after.ids ≡ before.ids ++ ids_of findings
  pub from_one :
      (after.severity ≡ before.severity)
      ⊎ ((f : SecurityFinding) × Member f findings × (after.severity ≡ f.severity))
  pub below_before : severity_rank after.severity ≤ severity_rank before.severity
  pub worst : IsWorst after.severity findings

join_group-severity :
    (finding : SecurityFinding) (value : Group)
    → (((join_group finding value).severity ≡ value.severity)
        ⊎ ((join_group finding value).severity ≡ finding.severity))
      × (severity_rank (join_group finding value).severity ≤ severity_rank value.severity)
      × (severity_rank (join_group finding value).severity ≤ severity_rank finding.severity)
unfolding join_group
join_group-severity finding value =
    elim (Bool-cases (ltb (severity_rank finding.severity) (severity_rank value.severity))) [
      | inl lower ↦ rw lower (inr refl, ground arith, ground arith)
      | inr not_lower ↦ rw not_lower (inl refl, ground arith, ground arith)
    ]

pub joins-IsJoined :
    (findings : List SecurityFinding) (before after : Group)
    → joins findings (some before) ≡ some after
    → IsJoined before findings after
unfolding join_group group_of
joins-IsJoined [] before after h =
    let same : before ≡ after = ground arith in
    subst (IsJoined before []) same (record {
      same_title = refl;
      same_action = refl;
      all_ids = sym (append_nil before.ids);
      from_one = inl refl;
      below_before = ground arith;
      worst = tt;
    })
joins-IsJoined (finding ∷ rest) before after h =
    let next = join_group finding before in
    let j = joins-IsJoined rest next after h in
    let (from, low, own) = join_group-severity finding before in
    record {
      same_title = j.same_title;
      same_action = j.same_action;
      all_ids = j.all_ids ∙ append_assoc before.ids finding.id (ids_of rest);
      from_one = elim j.from_one [
        | inr (f, there, is) ↦ inr (f, inr there, is)
        | inl is ↦ elim from [
          | inl old ↦ inl (is ∙ old)
          | inr new ↦ inr (finding, inl refl, is ∙ new)
        ]
      ];
      below_before = ground (arith, j.below_before);
      worst = (ground (arith, j.below_before), j.worst);
    }

pub group_findings-Distinct :
    (findings : List SecurityFinding) (groups : GoMap String Group)
    → Distinct groups
    → Distinct (group_findings findings groups)
unfolding group_findings
group_findings-Distinct [] groups d = d
group_findings-Distinct (finding ∷ rest) groups d =
    let joined = join_group finding (group_of finding (lookup finding.rule_id groups)) in
    group_findings-Distinct rest (insert finding.rule_id joined groups)
      (insert-Distinct finding.rule_id joined groups d)
