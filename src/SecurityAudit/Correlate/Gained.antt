-- ===== src/SecurityAudit/Correlate/Gained.antt =====
-- The three lists of roles that the correlation of a service account ends with.
use Prim.Native.String.{String, ◌++◌ as append}
use aura_tracker_gcp.Prelude.{
  Bool, true, false, not, ◌&&◌, List, [], ◌∷◌, ◌≡◌, refl, sym, ◌∙◌, subst, ap, arith, ◌==◌,
  string_eq, if◌then◌else◌, Member, inl, inr, Bool-cases,
}
use aura_tracker_gcp.GoMap.{GoMap}
use aura_tracker_gcp.GoSort.{sort_strings, string_lt}
use aura_tracker_gcp.GoSort.Sorted.{slice_stable-Member}
use aura_tracker_gcp.SecurityAudit.Facts.{SecurityIamPolicyFacts}
use aura_tracker_gcp.SecurityAudit.NetworkFacts.{KubernetesServiceAccountFact}
use aura_tracker_gcp.SecurityAudit.Rules.Roles.{append_unique_roles, roles_of, roles_by_member}
use aura_tracker_gcp.SecurityAudit.Rules.Roles.Contains.{append_unique_roles-Member}
use aura_tracker_gcp.SecurityAudit.Correlate.{
  RangeOver, is_direct, is_namespace, correlate_members, map_gsa, sort_roles, correlate_account,
}
use aura_tracker_gcp.SecurityAudit.Correlate.Grants.{
  roles_by_member-Distinct, Grants, roles_by_member-Grants,
}
use aura_tracker_gcp.SecurityAudit.Correlate.Roles.{
  IsRange, Gains, add_where, add_where-Member, entries-Source,
}

module _ (pool : String) (named : KubernetesServiceAccountFact) where
  abbrev pub only_namespace : String → Bool
  only_namespace member = not (is_direct pool named member) && is_namespace pool named member

  abbrev turn :
      Bool → Bool → List String → KubernetesServiceAccountFact → KubernetesServiceAccountFact
  turn direct space granted account =
      if direct
      then record account { direct_roles = append_unique_roles account.direct_roles granted }
      else if space
      then record account { namespace_roles = append_unique_roles account.namespace_roles granted }
      else account

  turn-direct :
      (direct space : Bool) (granted : List String) (account : KubernetesServiceAccountFact)
      → (turn direct space granted account).direct_roles ≡ (
          if direct then append_unique_roles account.direct_roles granted else account.direct_roles)
  turn-direct true space granted account = refl
  turn-direct false true granted account = refl
  turn-direct false false granted account = refl

  turn-namespace :
      (direct space : Bool) (granted : List String) (account : KubernetesServiceAccountFact)
      → (turn direct space granted account).namespace_roles ≡ (
          if not direct && space
          then append_unique_roles account.namespace_roles granted
          else account.namespace_roles)
  turn-namespace true space granted account = refl
  turn-namespace false true granted account = refl
  turn-namespace false false granted account = refl

  -- What the loop leaves as it is.
  abbrev Same : KubernetesServiceAccountFact → KubernetesServiceAccountFact → Type 0
  Same a b =
      (a.google_service_account ≡ b.google_service_account)
      × (a.mapped_gsa_roles ≡ b.mapped_gsa_roles)

  turn-Same :
      (direct space : Bool) (granted : List String) (account : KubernetesServiceAccountFact)
      → Same (turn direct space granted account) account
  turn-Same true space granted account = (refl, refl)
  turn-Same false true granted account = (refl, refl)
  turn-Same false false granted account = (refl, refl)

  correlate_members-direct :
      (entries : List (String × List String)) (account : KubernetesServiceAccountFact)
      → (correlate_members pool named entries account).direct_roles
        ≡ add_where (is_direct pool named) account.direct_roles entries
  unfolding correlate_members
  correlate_members-direct [] account = refl
  correlate_members-direct ((member, granted) ∷ rest) account =
      let d = is_direct pool named member in
      let n = is_namespace pool named member in
      correlate_members-direct rest (turn d n granted account)
      ∙ ap (λ v. add_where (is_direct pool named) v rest) (turn-direct d n granted account)

  correlate_members-namespace :
      (entries : List (String × List String)) (account : KubernetesServiceAccountFact)
      → (correlate_members pool named entries account).namespace_roles
        ≡ add_where only_namespace account.namespace_roles entries
  unfolding correlate_members
  correlate_members-namespace [] account = refl
  correlate_members-namespace ((member, granted) ∷ rest) account =
      let d = is_direct pool named member in
      let n = is_namespace pool named member in
      correlate_members-namespace rest (turn d n granted account)
      ∙ ap (λ v. add_where only_namespace v rest) (turn-namespace d n granted account)

  correlate_members-Same :
      (entries : List (String × List String)) (account : KubernetesServiceAccountFact)
      → Same (correlate_members pool named entries account) account
  unfolding correlate_members
  correlate_members-Same [] account = (refl, refl)
  correlate_members-Same ((member, granted) ∷ rest) account =
      let d = is_direct pool named member in
      let n = is_namespace pool named member in
      let (g, m) = correlate_members-Same rest (turn d n granted account) in
      let (g2, m2) = turn-Same d n granted account in (g ∙ g2, m ∙ m2)

-- The member that stands for the annotated Google service account.
abbrev pub is_google : KubernetesServiceAccountFact → String → Bool
is_google account member =
    not (account.google_service_account == "")
    && member == append "serviceAccount:" account.google_service_account

abbrev joined_of : String → List String → GoMap String (List String) → List String
joined_of gsa mapped roles =
    if gsa == ""
    then mapped
    else append_unique_roles mapped (roles_of (append "serviceAccount:" gsa) roles)

abbrev joined : KubernetesServiceAccountFact → GoMap String (List String) → List String
joined account roles = joined_of account.google_service_account account.mapped_gsa_roles roles

map_gsa-fields :
    (facts : SecurityIamPolicyFacts) (roles : GoMap String (List String)) (pool : String)
    (account : KubernetesServiceAccountFact)
    → ((map_gsa facts roles pool account).direct_roles ≡ account.direct_roles)
      × ((map_gsa facts roles pool account).namespace_roles ≡ account.namespace_roles)
      × ((map_gsa facts roles pool account).mapped_gsa_roles ≡ joined account roles)
unfolding map_gsa
map_gsa-fields facts roles pool account = (ground arith, ground arith, ground arith)

sorted-Gains :
    (facts : SecurityIamPolicyFacts) (test : String → Bool) (before : List String) (role : String)
    (entries : List (String × List String))
    → IsRange (roles_by_member facts) entries
    → Gains facts test before (sort_strings (add_where test before entries)) role
unfolding sort_strings
sorted-Gains facts test before role entries range =
    let (to, from) = add_where-Member test role before entries in
    let (to_source, from_source) = entries-Source facts test entries role range in
    let (to_sorted, from_sorted) =
      slice_stable-Member string_lt role (add_where test before entries) in
    (
      (λ m. elim (to (to_sorted m)) [ inl old ↦ inl old | inr new ↦ inr (to_source new) ]),
      (λ m.
          from_sorted
            (elim m [ inl old ↦ from (inl old) | inr new ↦ from (inr (from_source new)) ])),
    )

joined-Gains :
    (facts : SecurityIamPolicyFacts) (account : KubernetesServiceAccountFact) (role : String)
    → Gains facts
        (is_google account)
        account.mapped_gsa_roles
        (sort_strings (joined account (roles_by_member facts)))
        role
unfolding sort_strings
joined-Gains facts account role =
    let member = append "serviceAccount:" account.google_service_account in
    let mapped = account.mapped_gsa_roles in
    let roles = roles_by_member facts in
    let (to_sorted, from_sorted) = slice_stable-Member string_lt role (joined account roles) in
    elim (Bool-cases (account.google_service_account == "")) [
      | inl none_named ↦
          let same : joined account roles ≡ mapped = ground arith in
          (
            (λ m. inl (subst (Member role) same (to_sorted m))),
            (λ m. from_sorted (
                subst (Member role) (sym same)
                  (elim m [ inl old ↦ old | inr (passed, (k, google, granted)) ↦ ground arith ]))),
          )
      | inr annotated ↦
          let (to, from) = append_unique_roles-Member role mapped (roles_of member roles) in
          let same : joined account roles ≡ append_unique_roles mapped (roles_of member roles) =
            ground arith in
          (
            (λ m. elim (to (subst (Member role) same (to_sorted m))) [
              | inl old ↦ inl old
              | inr (passed, has) ↦ inr (
                passed,
                (
                  member,
                  ground (arith, string_eq.equals_iff member member),
                  (roles_by_member-Grants facts member role).0 has,
                ),
              )
            ]),
            (λ m. from_sorted (
                subst (Member role) (sym same) (
                  from (elim m [
                    | inl old ↦ inl old
                    | inr (passed, (k, google, granted)) ↦
                        let is : k ≡ member = (string_eq.equals_iff k member).0 (ground arith) in
                        inr (
                          passed,
                          (roles_by_member-Grants facts member role).1
                              (subst (λ n. Grants facts.policies n role) is granted),
                        )
                  ])))),
          )
    ]

joined_same :
    (roles : GoMap String (List String)) (a b : KubernetesServiceAccountFact)
    → a.google_service_account ≡ b.google_service_account
    → a.mapped_gsa_roles ≡ b.mapped_gsa_roles
    → joined a roles ≡ joined b roles
joined_same roles a b h k =
    ap (λ gsa. joined_of gsa a.mapped_gsa_roles roles) h
    ∙ ap (λ m. joined_of b.google_service_account m roles) k

-- In whatever order the map of roles is ranged over, a service account of a cluster ends with the
-- roles that it had and, in addition: as direct roles, those that a policy grants to its own
-- principal in the cluster's pool; as namespace roles, those of the principals of its namespace in
-- that pool; as mapped roles, those of the Google service account that it is annotated with, if
-- any. The role of workload identity users and the empty one are never added.
pub correlate_account-Gains :
    (range_over : RangeOver) (facts : SecurityIamPolicyFacts) (pool : String)
    (account : KubernetesServiceAccountFact) (role : String)
    → let after = correlate_account range_over facts (roles_by_member facts) pool account in
      Gains facts (is_direct pool account) account.direct_roles after.direct_roles role
      × Gains facts (only_namespace pool account) account.namespace_roles after.namespace_roles role
      × Gains facts (is_google account) account.mapped_gsa_roles after.mapped_gsa_roles role
unfolding correlate_account sort_roles
correlate_account-Gains range_over facts pool account role =
    let roles = roles_by_member facts in
    let entries = (range_over account).entries roles in
    let range : IsRange roles entries = record {
      entry_iff = (range_over account).entry_iff roles (roles_by_member-Distinct facts);
    } in
    let looped = correlate_members pool account entries account in
    let (d, n, g) = map_gsa-fields facts roles pool looped in
    let (google, mapped) = correlate_members-Same pool account entries account in
    (
      subst (λ v. Gains facts (is_direct pool account) account.direct_roles (sort_strings v) role)
          (sym (d ∙ correlate_members-direct pool account entries account))
          (sorted-Gains facts (is_direct pool account) account.direct_roles role entries range),
      subst
          (λ v.
            Gains facts (only_namespace pool account) account.namespace_roles (sort_strings v) role)
          (sym (n ∙ correlate_members-namespace pool account entries account))
          (sorted-Gains facts (only_namespace pool account) account.namespace_roles role entries
            range),
      subst (λ v. Gains facts (is_google account) account.mapped_gsa_roles (sort_strings v) role)
          (sym (g ∙ joined_same roles looped account google mapped))
          (joined-Gains facts account role),
    )
