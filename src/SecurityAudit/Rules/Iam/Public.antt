-- ===== src/SecurityAudit/Rules/Iam/Public.antt =====
-- The findings on public grants.
use Prim.Native.String.{String}
use aura_tracker_gcp.Prelude.{
  Bool, true, false, ◌||◌, List, [], ◌∷◌, ◌++◌, ◌≡◌, ◌≢◌, refl, sym, ◌∙◌, subst, ap, arith,
  string_eq, nat_eq, if◌then◌else◌, flat_map, flat_map-Member, Member-flat_map, Member,
  Member-append, inl, inr, Bool-cases,
}
use aura_tracker_gcp.Message.{Message}
use aura_tracker_gcp.SecurityAudit.Facts.{
  SecurityIamBindingFact, SecurityIamPolicyFact, SecurityIamPolicyFacts,
}
use aura_tracker_gcp.SecurityAudit.Report.{SecurityFinding}
use aura_tracker_gcp.SecurityAudit.Rules.Finding.{RuleOps, new_finding, compact_evidence}
use aura_tracker_gcp.SecurityAudit.Rules.Roles.{
  is_public_member, is_public_invocation_role, is_secret_access_role, is_privileged_role,
  matching_deny_rule_count,
}
use aura_tracker_gcp.SecurityAudit.Rules.Iam.{
  iam_001, when, holds, origin_note, deny_note, condition_note, member_findings, evaluate_iam,
}

-- A policy grants the member the role on its resource.
abbrev pub Grants : SecurityIamPolicyFacts → String → String → String → Type 0
Grants facts resource role member =
    (policy : SecurityIamPolicyFact) × (binding : SecurityIamBindingFact) × Member policy
      facts.policies
    × Member binding policy.bindings
    × Member member binding.members
    × (policy.resource ≡ resource)
    × (binding.role ≡ role)

-- A public member has a role that no other rule set deals with.
abbrev pub IsPublicGrant : SecurityIamPolicyFacts → String → String → Type 0
IsPublicGrant facts resource role =
    (member : String) × Grants facts resource role member
    × (is_public_member member ≡ true)
    × (is_public_invocation_role role ≡ false)
    × (is_secret_access_role role ≡ false)

abbrev pub public_severity : String → String
public_severity role = if is_privileged_role role then "critical" else "high"

module _ (ops : RuleOps) (facts : SecurityIamPolicyFacts) where
  -- The finding is one of IAM-001 on the resource, with the severity for the role.
  abbrev pub Reports : SecurityFinding → String → String → Type 0
  Reports f resource role =
      (f.rule_id ≡ "IAM-001") × (f.resource ≡ resource) × (f.severity ≡ public_severity role)

  unfoldable pub note_of : SecurityIamPolicyFact → SecurityIamBindingFact → String → List Message
  note_of policy binding member = compact_evidence (
      holds member binding
      ∷ condition_note binding.condition
      ∷ origin_note policy
      ∷ deny_note (matching_deny_rule_count facts.deny_rules member)
      ∷ [])

  public_found :
      (policy : SecurityIamPolicyFact) (binding : SecurityIamBindingFact) (member : String)
      → is_public_member member ≡ true
      → is_public_invocation_role binding.role ≡ false
      → is_secret_access_role binding.role ≡ false
      → member_findings ops facts policy binding member
        ≡ iam_001 ops (public_severity binding.role) policy.resource (note_of policy binding member)
          ∷ []
  unfolding member_findings note_of
  public_found policy binding member h i s = rw (h, i, s, member_findings) refl

  public_deferred :
      (policy : SecurityIamPolicyFact) (binding : SecurityIamBindingFact) (member : String)
      → is_public_member member ≡ true
      → is_public_invocation_role binding.role || is_secret_access_role binding.role ≡ true
      → member_findings ops facts policy binding member ≡ []
  unfolding member_findings
  public_deferred policy binding member h i = rw (h, i, member_findings) refl

  when-Member : (test : Bool) (f g : SecurityFinding) → Member f (when test g) → f ≡ g
  when-Member true f g (inl same) = same
  when-Member true f g (inr m) = elim m [ ]
  when-Member false f g m = elim m [ ]

  -- Another rule than IAM-001.
  IsOther : SecurityFinding → Type 0
  IsOther f = f.rule_id ≢ "IAM-001"

  when-IsOther :
      (test : Bool) (f g : SecurityFinding)
      → g.rule_id ≢ "IAM-001"
      → Member f (when test g)
      → f.rule_id ≢ "IAM-001"
  when-IsOther test f g other m =
      subst (λ (h : SecurityFinding). h.rule_id ≢ "IAM-001") (sym (when-Member test f g m)) other

  from_else :
      (test : Bool) (xs ys : List SecurityFinding) (f : SecurityFinding)
      → test ≡ false
      → Member f (if test then xs else ys)
      → Member f ys
  from_else true xs ys f h m = ground arith
  from_else false xs ys f h m = m

  three :
      (a b c : Bool) (x y z f : SecurityFinding)
      → x.rule_id ≢ "IAM-001"
      → y.rule_id ≢ "IAM-001"
      → z.rule_id ≢ "IAM-001"
      → Member f (when a x ++ when b y ++ when c z)
      → f.rule_id ≢ "IAM-001"
  three a b c x y z f p q r m = elim (Member-append f (when a x ++ when b y) (when c z) m) [
    | inr third ↦ when-IsOther c f z r third
    | inl rest ↦ elim (Member-append f (when a x) (when b y) rest) [
      | inl first ↦ when-IsOther a f x p first
      | inr second ↦ when-IsOther b f y q second
    ]
  ]

  others :
      (policy : SecurityIamPolicyFact) (binding : SecurityIamBindingFact) (member : String)
      (f : SecurityFinding)
      → is_public_member member ≡ false
      → Member f (member_findings ops facts policy binding member)
      → f.rule_id ≢ "IAM-001"
  unfolding member_findings new_finding
  others policy binding member f h m =
      three _ _ _ _ _ _ f (ground (arith, string_eq.equals_iff "IAM-002" "IAM-001"))
        (ground (arith, string_eq.equals_iff "IAM-003" "IAM-001"))
        (ground (arith, string_eq.equals_iff "IAM-004" "IAM-001"))
        (from_else (is_public_member member) _ _ f h m)

  reported :
      (f : SecurityFinding) (resource role : String) (evidence : List Message)
      → f ≡ iam_001 ops (public_severity role) resource evidence
      → Reports f resource role
  unfolding new_finding
  reported f resource role evidence same = (
    ap (λ (h : SecurityFinding). h.rule_id) same,
    ap (λ (h : SecurityFinding). h.resource) same,
    ap (λ (h : SecurityFinding). h.severity) same,
  )

  Member-public :
      (policy : SecurityIamPolicyFact) (binding : SecurityIamBindingFact) (member : String)
      (f : SecurityFinding)
      → Member f (member_findings ops facts policy binding member)
      → f.rule_id ≡ "IAM-001"
      → (is_public_member member ≡ true)
        × (is_public_invocation_role binding.role ≡ false)
        × (is_secret_access_role binding.role ≡ false)
        × Reports f policy.resource binding.role
  Member-public policy binding member f m named = elim (Bool-cases (is_public_member member)) [
    | inr private_ ↦ ground (arith, others policy binding member f private_ m)
    | inl public_ ↦
        elim (Bool-cases
          (is_public_invocation_role binding.role || is_secret_access_role binding.role)) [
            | inl deferred ↦
                elim (subst (Member f) (public_deferred policy binding member public_ deferred)
                  m) [ ]
            | inr own ↦
                let i : is_public_invocation_role binding.role ≡ false = ground arith in
                let s : is_secret_access_role binding.role ≡ false = ground arith in
                elim (subst (Member f) (public_found policy binding member public_ i s) m) [
                  | inl same ↦ (
                    public_,
                    i,
                    s,
                    reported f policy.resource binding.role (note_of policy binding member) same,
                  )
                  | inr none_left ↦ elim none_left [ ]
                ]
          ]
  ]

  -- A finding of IAM-001 comes from a policy that grants a role to a public member, a role with no
  -- rule set of its own for it; the finding is on the policy's resource, critical if the role is
  -- privileged and otherwise high.
  pub evaluate_iam-IsPublicGrant :
      (f : SecurityFinding)
      → Member f (evaluate_iam ops facts)
      → f.rule_id ≡ "IAM-001"
      → (resource role : String) × IsPublicGrant facts resource role × Reports f resource role
  unfolding evaluate_iam
  evaluate_iam-IsPublicGrant f m named =
      let (policy, in_facts, from_policy) =
        flat_map-Member
          (λ policy.
            flat_map
              (λ binding. flat_map (member_findings ops facts policy binding) binding.members)
              policy.bindings)
          facts.policies f m in
      let (binding, in_policy, from_binding) =
        flat_map-Member
          (λ binding. flat_map (member_findings ops facts policy binding) binding.members)
          policy.bindings f from_policy in
      let (member, in_binding, from_member) =
        flat_map-Member (member_findings ops facts policy binding) binding.members f from_binding in
      let (public_, i, s, reports) = Member-public policy binding member f from_member named in
      (
        policy.resource,
        binding.role,
        (member, (policy, binding, in_facts, in_policy, in_binding, refl, refl), public_, i, s),
        reports,
      )

  -- Every grant of a role to a public member, a role with no rule set of its own for it, has a
  -- finding of IAM-001 on its resource, critical if the role is privileged and otherwise high.
  pub evaluate_iam-Reports :
      (resource role : String)
      → IsPublicGrant facts resource role
      → (f : SecurityFinding) × Member f (evaluate_iam ops facts) × Reports f resource role
  unfolding evaluate_iam
  evaluate_iam-Reports resource role grant =
      let (member, (policy, binding, in_facts, in_policy, in_binding, here, named), public_, i, s) =
        grant in
      let f =
        iam_001 ops (public_severity binding.role) policy.resource
          (note_of policy binding member) in
      let found : Member f (member_findings ops facts policy binding member) =
        subst (Member f)
          (sym (
            public_found policy binding member public_ (ap is_public_invocation_role named ∙ i)
              (ap is_secret_access_role named ∙ s)))
          (inl refl) in
      let (r, o, v) =
        reported f policy.resource binding.role (note_of policy binding member) refl in
      (
        f,
        Member-flat_map
            (λ policy.
              flat_map
                (λ binding. flat_map (member_findings ops facts policy binding) binding.members)
                policy.bindings)
            facts.policies policy f in_facts
            (Member-flat_map
              (λ binding. flat_map (member_findings ops facts policy binding) binding.members)
              policy.bindings binding f in_policy
              (Member-flat_map (member_findings ops facts policy binding) binding.members member f
                in_binding found)),
        (r, o ∙ here, v ∙ ap public_severity named),
      )
