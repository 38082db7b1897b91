-- ===== src/SecurityAudit/Rules/Roles/Contains.antt =====
-- `contains` and `appendUniqueRoles` of internal/securityaudit/workload_identity.go on single values.
use Prim.Native.String.{String}
use aura_tracker_gcp.Prelude.{
  Bool, true, ◌||◌, List, [], ◌∷◌, ◌++◌, ◌≡◌, ◌≢◌, sym, subst, arith, ◌==◌, string_eq,
  if◌then◌else◌, Member, Member-append_left, Member-append_right, Member-append, ◌⊎◌, inl, inr, ◌↔◌,
  Bool-cases,
}
use aura_tracker_gcp.SecurityAudit.Rules.Roles.{contains, append_unique_roles}

pub contains_iff : (xs : List String) (x : String) → (contains xs x ≡ true) ↔ Member x xs
unfolding contains
contains_iff [] x = ((λ h. ground arith), (λ m. elim m [ ]))
contains_iff (y ∷ ys) x = elim (Bool-cases (y == x)) [
  | inl same ↦ ((λ h. inl (sym ((string_eq.equals_iff y x).0 same))), (λ m. ground arith))
  | inr other ↦ (
    (λ h. inr ((contains_iff ys x).0 (ground arith))),
    (λ m. elim m [
      | inl same ↦ ground (arith, string_eq.equals_iff y x)
      | inr k ↦ let there = (contains_iff ys x).1 k in ground arith
    ]),
  )
]

-- A role that appendUniqueRoles passes on.
abbrev pub IsPassed : String → Type 0
IsPassed role = (role ≢ "") × (role ≢ "roles/iam.workloadIdentityUser")

abbrev skips : List String → String → Bool
skips values value =
    value == "" || contains values value || value == "roles/iam.workloadIdentityUser"

append_one-Member :
    (role : String) (values : List String) (value : String)
    → Member role (if skips values value then values else values ++ value ∷ [])
      ↔ (Member role values ⊎ (IsPassed role × (role ≡ value)))
append_one-Member role values value = elim (Bool-cases (skips values value)) [
  | inl skipped ↦ (
    (λ m. inl (subst (λ b. Member role (if b then values else values ++ value ∷ [])) skipped m)),
    (λ m.
        subst (λ b. Member role (if b then values else values ++ value ∷ [])) (sym skipped)
          (elim m [
            | inl l ↦ l
            | inr ((named, other), same) ↦
                subst (λ v. Member v values) (sym same)
                  ((contains_iff values value).0 (
                    ground (
                      arith,
                      string_eq.equals_iff value "",
                      string_eq.equals_iff value "roles/iam.workloadIdentityUser",
                    )))
          ])),
  )
  | inr new ↦ (
    (λ m.
        elim (Member-append role values (value ∷ [])
          (subst (λ b. Member role (if b then values else values ++ value ∷ [])) new m)) [
            | inl l ↦ inl l
            | inr r ↦ elim r [
              | inl same ↦ inr (
                (
                  (λ e. ground (arith, string_eq.equals_iff value "")),
                  (λ e.
                      ground (arith, string_eq.equals_iff value "roles/iam.workloadIdentityUser")),
                ),
                same,
              )
              | inr l ↦ elim l [ ]
            ]
          ]),
    (λ m.
        subst (λ b. Member role (if b then values else values ++ value ∷ [])) (sym new)
          (elim m [
            | inl l ↦ Member-append_left role values (value ∷ []) l
            | inr (passed, same) ↦ Member-append_right role values (value ∷ []) (inl same)
          ])),
  )
]

pub append_unique_roles-Member :
    (role : String) (values additions : List String)
    → Member role (append_unique_roles values additions)
      ↔ (Member role values ⊎ (IsPassed role × Member role additions))
unfolding append_unique_roles
append_unique_roles-Member role values [] =
    ((λ m. inl m), (λ m. elim m [ inl l ↦ l | inr g ↦ elim (g.1) [ ] ]))
append_unique_roles-Member role values (value ∷ rest) =
    let next = if skips values value then values else values ++ value ∷ [] in
    let (to, from) = append_unique_roles-Member role next rest in
    let (to_one, from_one) = append_one-Member role values value in
    (
      (λ m. elim (to m) [
        | inl l ↦ elim (to_one l) [
          | inl old ↦ inl old
          | inr (passed, same) ↦ inr (passed, inl same)
        ]
        | inr (passed, there) ↦ inr (passed, inr there)
      ]),
      (λ m. elim m [
        | inl old ↦ from (inl (from_one (inl old)))
        | inr (passed, where_) ↦ elim where_ [
          | inl same ↦ from (inl (from_one (inr (passed, same))))
          | inr there ↦ from (inr (passed, there))
        ]
      ]),
    )
