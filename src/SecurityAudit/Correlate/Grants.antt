-- ===== src/SecurityAudit/Correlate/Grants.antt =====
-- What `rolesByMember` of internal/securityaudit/rules.go collects: the grants of the policies.
use Prim.Native.String.{String}
use aura_tracker_gcp.Prelude.{
  List, [], ◌∷◌, ◌++◌, ◌≡◌, refl, sym, ◌∙◌, subst, ap, arith, ◌==◌, string_eq, if◌then◌else◌,
  Member, Member-append_left, Member-append_right, Member-append, ◌⊎◌, inl, inr, ◌↔◌, Bool-cases,
}
use aura_tracker_gcp.GoMap.{Distinct, insert-Distinct, GoMap, lookup, insert, lookup-insert}
use aura_tracker_gcp.SecurityAudit.Facts.{
  SecurityIamBindingFact, SecurityIamPolicyFact, SecurityIamPolicyFacts,
}
use aura_tracker_gcp.SecurityAudit.Rules.Roles.{
  roles_of, grant, grant_bindings, grant_policies, roles_by_member,
}

-- A policy grants the member the role.
abbrev pub Grants : List SecurityIamPolicyFact → String → String → Type 0
Grants policies member role =
    (policy : SecurityIamPolicyFact) × (binding : SecurityIamBindingFact) × Member policy policies
    × Member binding policy.bindings
    × Member member binding.members
    × (role ≡ binding.role)

abbrev GrantedBy : List SecurityIamBindingFact → String → String → Type 0
GrantedBy bindings member role =
    (binding : SecurityIamBindingFact) × Member binding bindings
    × Member member binding.members
    × (role ≡ binding.role)

roles_of-insert :
    (key asked : String) (new : List String) (m : GoMap String (List String))
    → roles_of asked (insert key new m) ≡ (if key == asked then new else roles_of asked m)
roles_of-insert key asked new m = ground (arith, lookup-insert key asked new m)

in_grant :
    (member role r : String) (members : List String) (out : GoMap String (List String))
    → Member role (roles_of member (grant r members out))
    → Member role (roles_of member out) ⊎ ((role ≡ r) × Member member members)
in_grant member role r [] out m = inl m
in_grant member role r (first ∷ rest) out m =
    let out2 = insert first (roles_of first out ++ r ∷ []) out in
    elim (in_grant member role r rest out2 m) [
      | inr (same, there) ↦ inr (same, inr there)
      | inl before ↦
          let here =
            subst (Member role) (roles_of-insert first member (roles_of first out ++ r ∷ []) out)
              before in
          elim (Bool-cases (first == member)) [
            | inr other ↦ inl (
                subst
                  (λ b.
                    Member role (if b then roles_of first out ++ r ∷ [] else roles_of member out))
                  other here)
            | inl same ↦
                let eq = (string_eq.equals_iff first member).0 same in
                elim (Member-append role (roles_of first out) (r ∷ []) (
                  subst
                    (λ b.
                      Member role (if b then roles_of first out ++ r ∷ [] else roles_of member out))
                    same here)) [
                      | inl old ↦ inl (subst (λ k. Member role (roles_of k out)) eq old)
                      | inr new ↦ elim new [ inl is ↦ inr (is, inl (sym eq)) | inr l ↦ elim l [ ] ]
                    ]
          ]
    ]

kept :
    (member role first : String) (r : String) (out : GoMap String (List String))
    → Member role (roles_of member out)
    → Member role (roles_of member (insert first (roles_of first out ++ r ∷ []) out))
kept member role first r out m =
    subst (Member role) (sym (roles_of-insert first member (roles_of first out ++ r ∷ []) out))
      (elim (Bool-cases (first == member)) [
        | inr other ↦
            subst
              (λ b. Member role (if b then roles_of first out ++ r ∷ [] else roles_of member out))
              (sym other) m
        | inl same ↦
            subst
              (λ b. Member role (if b then roles_of first out ++ r ∷ [] else roles_of member out))
              (sym same)
              (Member-append_left role (roles_of first out) (r ∷ []) (
                subst (λ k. Member role (roles_of k out))
                  (sym ((string_eq.equals_iff first member).0 same)) m))
      ])

added :
    (member r : String) (out : GoMap String (List String))
    → Member r (roles_of member (insert member (roles_of member out ++ r ∷ []) out))
added member r out =
    subst (Member r)
      (sym (roles_of-insert member member (roles_of member out ++ r ∷ []) out ∙ same))
      (Member-append_right r (roles_of member out) (r ∷ []) (inl refl))
  where
    same :
        (if member == member then roles_of member out ++ r ∷ [] else roles_of member out)
        ≡ roles_of member out ++ r ∷ []
    same = ground (arith, string_eq.equals_iff member member)

old_in_grant :
    (member role r : String) (members : List String) (out : GoMap String (List String))
    → Member role (roles_of member out)
    → Member role (roles_of member (grant r members out))
old_in_grant member role r [] out m = m
old_in_grant member role r (first ∷ rest) out m =
    old_in_grant member role r rest (insert first (roles_of first out ++ r ∷ []) out)
      (kept member role first r out m)

new_in_grant :
    (member r : String) (members : List String) (out : GoMap String (List String))
    → Member member members
    → Member r (roles_of member (grant r members out))
new_in_grant member r [] out m = elim m [ ]
new_in_grant member r (first ∷ rest) out (inl same) =
    old_in_grant member r r rest (insert first (roles_of first out ++ r ∷ []) out) (
      subst (λ k. Member r (roles_of k (insert first (roles_of first out ++ r ∷ []) out)))
        (sym same) (added first r out))
new_in_grant member r (first ∷ rest) out (inr m) =
    new_in_grant member r rest (insert first (roles_of first out ++ r ∷ []) out) m

grant_bindings-roles :
    (member role : String) (bindings : List SecurityIamBindingFact)
    (out : GoMap String (List String))
    → Member role (roles_of member (grant_bindings bindings out))
      ↔ (Member role (roles_of member out) ⊎ GrantedBy bindings member role)
grant_bindings-roles member role [] out =
    ((λ m. inl m), (λ m. elim m [ inl l ↦ l | inr g ↦ elim (g.1) [ ] ]))
grant_bindings-roles member role (binding ∷ rest) out =
    let out2 = grant binding.role binding.members out in
    let (to, from) = grant_bindings-roles member role rest out2 in
    (
      (λ m. elim (to m) [
        | inr (b, there, here, same) ↦ inr (b, inr there, here, same)
        | inl before ↦ elim (in_grant member role binding.role binding.members out before) [
          | inl old ↦ inl old
          | inr (same, there) ↦ inr (binding, inl refl, there, same)
        ]
      ]),
      (λ m. elim m [
        | inl old ↦ from (inl (old_in_grant member role binding.role binding.members out old))
        | inr (b, where_, there, same) ↦ elim where_ [
          | inr later ↦ from (inr (b, later, there, same))
          | inl is ↦ from (
              inl (
                subst (λ x. Member x (roles_of member out2))
                  (sym (same ∙ ap (λ (x : SecurityIamBindingFact). x.role) is))
                  (new_in_grant member binding.role binding.members out
                    (subst (λ (x : SecurityIamBindingFact). Member member x.members) is there))))
        ]
      ]),
    )

grant_policies-roles :
    (member role : String) (policies : List SecurityIamPolicyFact)
    (out : GoMap String (List String))
    → Member role (roles_of member (grant_policies policies out))
      ↔ (Member role (roles_of member out) ⊎ Grants policies member role)
grant_policies-roles member role [] out =
    ((λ m. inl m), (λ m. elim m [ inl l ↦ l | inr g ↦ elim (g.2) [ ] ]))
grant_policies-roles member role (policy ∷ rest) out =
    let (to, from) = grant_policies-roles member role rest (grant_bindings policy.bindings out) in
    let (to_b, from_b) = grant_bindings-roles member role policy.bindings out in
    (
      (λ m. elim (to m) [
        | inr (p, b, there, in_policy, here, same) ↦ inr (p, b, inr there, in_policy, here, same)
        | inl before ↦ elim (to_b before) [
          | inl old ↦ inl old
          | inr (b, in_policy, here, same) ↦ inr (policy, b, inl refl, in_policy, here, same)
        ]
      ]),
      (λ m. elim m [
        | inl old ↦ from (inl (from_b (inl old)))
        | inr (p, b, where_, in_policy, here, same) ↦ elim where_ [
          | inr later ↦ from (inr (p, b, later, in_policy, here, same))
          | inl is ↦ from (
              inl (
                from_b (
                  inr (
                    b,
                    subst (λ (x : SecurityIamPolicyFact). Member b x.bindings) is in_policy,
                    here,
                    same,
                  ))))
        ]
      ]),
    )

pub roles_by_member-Grants :
    (facts : SecurityIamPolicyFacts) (member role : String)
    → Member role (roles_of member (roles_by_member facts)) ↔ Grants facts.policies member role
unfolding roles_by_member lookup
roles_by_member-Grants facts member role =
    let (to, from) = grant_policies-roles member role facts.policies [] in
    ((λ m. elim (to m) [ inl l ↦ elim l [ ] | inr g ↦ g ]), (λ g. from (inr g)))

grant-Distinct :
    (role : String) (members : List String) (out : GoMap String (List String))
    → Distinct out
    → Distinct (grant role members out)
grant-Distinct role [] out d = d
grant-Distinct role (member ∷ rest) out d =
    let new = roles_of member out ++ role ∷ [] in
    grant-Distinct role rest (insert member new out) (insert-Distinct member new out d)

grant_bindings-Distinct :
    (bindings : List SecurityIamBindingFact) (out : GoMap String (List String))
    → Distinct out
    → Distinct (grant_bindings bindings out)
grant_bindings-Distinct [] out d = d
grant_bindings-Distinct (binding ∷ rest) out d =
    grant_bindings-Distinct rest (grant binding.role binding.members out)
      (grant-Distinct binding.role binding.members out d)

grant_policies-Distinct :
    (policies : List SecurityIamPolicyFact) (out : GoMap String (List String))
    → Distinct out
    → Distinct (grant_policies policies out)
grant_policies-Distinct [] out d = d
grant_policies-Distinct (policy ∷ rest) out d =
    grant_policies-Distinct rest (grant_bindings policy.bindings out)
      (grant_bindings-Distinct policy.bindings out d)

pub roles_by_member-Distinct : (facts : SecurityIamPolicyFacts) → Distinct (roles_by_member facts)
unfolding roles_by_member
roles_by_member-Distinct facts = grant_policies-Distinct facts.policies [] tt
