-- ===== src/SecurityAudit/Correlate/Roles.antt =====
-- What the correlation adds to a service account.
use Prim.Native.String.{String}
use aura_tracker_gcp.Prelude.{
  Bool, true, some, List, [], ◌∷◌, ◌≡◌, refl, sym, subst, ap, arith, string_eq, if◌then◌else◌,
  Member, ◌⊎◌, inl, inr, ◌↔◌, Bool-cases, Option-cases,
}
use aura_tracker_gcp.GoMap.{GoMap, lookup}
use aura_tracker_gcp.SecurityAudit.Facts.{SecurityIamPolicyFacts}
use aura_tracker_gcp.SecurityAudit.Rules.Roles.{append_unique_roles, or_empty, roles_by_member}
use aura_tracker_gcp.SecurityAudit.Correlate.Grants.{Grants, roles_by_member-Grants}
use aura_tracker_gcp.SecurityAudit.Rules.Roles.Contains.{IsPassed, append_unique_roles-Member}

-- The order of a loop over the map of roles: each of its entries, and nothing else.
pub record IsRange (roles : GoMap String (List String)) (entries : List (String × List String))
    : Type 0 where
  pub entry_iff :
      (member : String) (granted : List String)
      → Member (member, granted) entries ↔ (lookup member roles ≡ some granted)

-- The passed role is granted to a member of the kind that the test tells.
abbrev pub Source : SecurityIamPolicyFacts → (String → Bool) → String → Type 0
Source facts is_member role =
    IsPassed role
    × ((member : String) × (is_member member ≡ true) × Grants facts.policies member role)

-- The values after are those before and the ones that come from the source.
abbrev pub Gains :
    SecurityIamPolicyFacts → (String → Bool) → List String → List String → String → Type 0
Gains facts is_member before after role =
    Member role after ↔ (Member role before ⊎ Source facts is_member role)

-- The values of the entries whose member passes the test, one after the other.
abbrev pub add_where : (String → Bool) → List String → List (String × List String) → List String
add_where test values [] = values
add_where test values ((member, granted) ∷ rest) =
    add_where test (if test member then append_unique_roles values granted else values) rest

abbrev InEntries : (String → Bool) → List (String × List String) → String → Type 0
InEntries test entries role =
    (member : String) × (granted : List String) × Member (member, granted) entries
    × (test member ≡ true)
    × Member role granted

pub add_where-Member :
    (test : String → Bool) (role : String) (values : List String)
    (entries : List (String × List String))
    → Member role (add_where test values entries)
      ↔ (Member role values ⊎ (IsPassed role × InEntries test entries role))
add_where-Member test role values [] =
    ((λ m. inl m), (λ m. elim m [ inl l ↦ l | inr g ↦ elim (g.1.2) [ ] ]))
add_where-Member test role values ((member, granted) ∷ rest) =
    let next = if test member then append_unique_roles values granted else values in
    let (to, from) = add_where-Member test role next rest in
    elim (Bool-cases (test member)) [
      | inl hit ↦
          let (to_one, from_one) = append_unique_roles-Member role values granted in
          (
            (λ m. elim (to m) [
              | inr (passed, (k, g, there, ok, has)) ↦ inr (passed, (k, g, inr there, ok, has))
              | inl l ↦
                  elim (to_one (
                    subst
                      (λ b. Member role (if b then append_unique_roles values granted else values))
                      hit l)) [
                        | inl old ↦ inl old
                        | inr (passed, has) ↦ inr (passed, (member, granted, inl refl, hit, has))
                      ]
            ]),
            (λ m.
                let back : Member role (append_unique_roles values granted) → Member role next =
                  λ k.
                    subst
                      (λ b. Member role (if b then append_unique_roles values granted else values))
                      (sym hit) k in
                elim m [
                  | inl old ↦ from (inl (back (from_one (inl old))))
                  | inr (passed, (k, g, where_, ok, has)) ↦ elim where_ [
                    | inr there ↦ from (inr (passed, (k, g, there, ok, has)))
                    | inl same ↦ from (
                        inl (
                          back (
                            from_one (
                              inr (
                                passed,
                                subst (Member role) (ap (λ (e : String × List String). e.1) same)
                                    has,
                              )))))
                  ]
                ]),
          )
      | inr miss ↦ (
        (λ m. elim (to m) [
          | inr (passed, (k, g, there, ok, has)) ↦ inr (passed, (k, g, inr there, ok, has))
          | inl l ↦ inl (
              subst (λ b. Member role (if b then append_unique_roles values granted else values))
                miss l)
        ]),
        (λ m. elim m [
          | inl old ↦ from (
              inl (
                subst (λ b. Member role (if b then append_unique_roles values granted else values))
                  (sym miss) old))
          | inr (passed, (k, g, where_, ok, has)) ↦ elim where_ [
            | inr there ↦ from (inr (passed, (k, g, there, ok, has)))
            | inl same ↦
                let named : k ≡ member = ap (λ (e : String × List String). e.0) same in ground arith
          ]
        ]),
      )
    ]

-- A loop over the whole map finds the grants themselves.
pub entries-Source :
    (facts : SecurityIamPolicyFacts) (test : String → Bool) (entries : List (String × List String))
    (role : String)
    → IsRange (roles_by_member facts) entries
    → (IsPassed role × InEntries test entries role) ↔ Source facts test role
entries-Source facts test entries role range = (
  (λ (passed, (k, g, there, ok, has)).
      let found = (range.entry_iff k g).0 there in
      (
        passed,
        (
          k,
          ok,
          (roles_by_member-Grants facts k role).0
              (subst (λ o. Member role (or_empty o)) (sym found) has),
        ),
      )),
  (λ (passed, (k, ok, granted)).
      let has = (roles_by_member-Grants facts k role).1 granted in
      elim (Option-cases (lookup k (roles_by_member facts))) [
        | inl missing ↦ elim (subst (λ o. Member role (or_empty o)) missing has) [ ]
        | inr (g, found) ↦ (
          passed,
          (
            k,
            g,
            (range.entry_iff k g).1 found,
            ok,
            subst (λ o. Member role (or_empty o)) found has,
          ),
        )
      ]),
)
