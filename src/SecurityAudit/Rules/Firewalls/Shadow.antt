-- ===== src/SecurityAudit/Rules/Firewalls/Shadow.antt =====
-- What it means that a deny shadows an allow rule, on single packets.
use Prim.Native.String.{String}
use aura_tracker_gcp.Prelude.{
  ◌+◌, true, false, ◌&&◌, some, List, [], ◌∷◌, ◌≡◌, refl, sym, subst, arith, ◌==◌, string_eq,
  nat_eq, length, Member, ◌⊎◌, inl, inr, Bool-cases,
}
use aura_tracker_gcp.Message.{ℤ}
use aura_tracker_gcp.GoText.{le_ℤ}
use aura_tracker_gcp.GoSort.{slice_stable}
use aura_tracker_gcp.SecurityAudit.NetworkFacts.{FirewallProtocolFact, FirewallSecurityFact}
use aura_tracker_gcp.SecurityAudit.Rules.Finding.{RuleOps}
use aura_tracker_gcp.SecurityAudit.Rules.Ports.{ports_contain, port_ranges_cover}
use aura_tracker_gcp.SecurityAudit.Rules.Roles.Contains.{contains_iff}
use aura_tracker_gcp.SecurityAudit.Rules.Ports.Cover.{port_ranges_cover-ports_contain}
use aura_tracker_gcp.SecurityAudit.Rules.Firewalls.Reach.{
  allows_world, effective_secure_tag_names, add_tag_names, has_potential_firewall_target,
  all_contained, string_set_covers, firewall_targets_cover, any_protocol_covers,
  all_protocols_covered, firewall_protocols_cover, is_shadowing, fully_shadowing_deny,
}

-- strings.EqualFold is an equivalence.
pub record IsFold (ops : RuleOps) : Type 0 where
  pub fold_trans :
      (a b c : String)
      → ops.equal_fold a b ≡ true
      → ops.equal_fold b c ≡ true
      → ops.equal_fold a c ≡ true

-- An instance as a rule sees it.
pub record Instance : Type 0 where
  pub tags : List String
  pub service_account : String
  pub secure_tags : List String

abbrev Shares : List String → List String → Type 0
Shares xs ys = (x : String) × Member x xs × Member x ys

all_contained-Member :
    (xs ys : List String) (y : String) → all_contained xs ys ≡ true → Member y ys → Member y xs
all_contained-Member xs [] y h m = elim m [ ]
all_contained-Member xs (z ∷ ys) y h (inl same) =
    subst (λ w. Member w xs) (sym same) ((contains_iff xs z).0 (ground arith))
all_contained-Member xs (z ∷ ys) y h (inr m) = all_contained-Member xs ys y (ground arith) m

string_set_covers-Member :
    (xs ys : List String) (y : String) → string_set_covers xs ys ≡ true → Member y ys → Member y xs
unfolding string_set_covers
string_set_covers-Member xs [] y h m = elim m [ ]
string_set_covers-Member xs (z ∷ ys) y h m = all_contained-Member xs (z ∷ ys) y h m

module _ (ops : RuleOps) where
  -- The rule applies to the instance: it names no target at all, or a tag of it that is in effect,
  -- or its service account.
  abbrev pub IsTarget : FirewallSecurityFact → Instance → Type 0
  IsTarget fw instance_ =
      (length fw.target_tags + length fw.target_service_accounts + length fw.target_secure_tags ≡ 0)
      ⊎ Shares fw.target_tags instance_.tags
      ⊎ Member instance_.service_account fw.target_service_accounts
      ⊎ Shares (effective_secure_tag_names ops fw.target_secure_tags) instance_.secure_tags

  -- One of the entries speaks of the protocol, up to case, and of the port.
  abbrev pub Speaks : List FirewallProtocolFact → String → ℤ → Type 0
  Speaks entries protocol port =
      (entry : FirewallProtocolFact) × Member entry entries
      × ((ops.equal_fold entry.protocol "all" ≡ true)
          ⊎ ((ops.equal_fold entry.protocol protocol ≡ true)
              × (ports_contain entry.ports port ≡ true)))

  covers_none :
      (xs ys : List String) → length ys ≡ 0 → string_set_covers xs ys ≡ true → length xs ≡ 0
  unfolding string_set_covers
  covers_none xs [] h k = ground (arith, nat_eq.equals_iff (length xs) 0)
  covers_none xs (y ∷ ys) h k = ground arith

  no_names :
      (tags : List String) → length tags ≡ 0 → length (effective_secure_tag_names ops tags) ≡ 0
  unfolding effective_secure_tag_names add_tag_names slice_stable
  no_names [] h = refl
  no_names (tag ∷ tags) h = ground arith

  targets-IsTarget :
      (deny allow : FirewallSecurityFact) (instance_ : Instance)
      → firewall_targets_cover ops deny allow ≡ true
      → IsTarget allow instance_
      → IsTarget deny instance_
  unfolding firewall_targets_cover has_potential_firewall_target
  targets-IsTarget deny allow i h target =
      let names = effective_secure_tag_names ops deny.target_secure_tags in
      let total = length deny.target_tags + length deny.target_service_accounts + length names in
      elim (Bool-cases (total == 0)) [
        | inl none_named ↦ inl (
            ground (
              arith,
              nat_eq.equals_iff total 0,
              nat_eq.equals_iff (length deny.target_secure_tags) 0,
            ))
        | inr some_named ↦
            let tags : string_set_covers deny.target_tags allow.target_tags ≡ true = ground arith in
            let accounts : string_set_covers deny.target_service_accounts
                  allow.target_service_accounts
                ≡ true =
              ground arith in
            let secure : string_set_covers names
                  (effective_secure_tag_names ops allow.target_secure_tags)
                ≡ true =
              ground arith in
            elim target [
              | inl all ↦
                  let t = covers_none deny.target_tags allow.target_tags (omega arith) tags in
                  let a =
                    covers_none deny.target_service_accounts allow.target_service_accounts
                      (omega arith) accounts in
                  let s =
                    covers_none names (effective_secure_tag_names ops allow.target_secure_tags)
                      (no_names allow.target_secure_tags (omega arith)) secure in
                  ground (arith, nat_eq.equals_iff total 0)
              | inr (inl (x, named, has)) ↦ inr (
                  inl (
                    x,
                    string_set_covers-Member deny.target_tags allow.target_tags x tags named,
                    has,
                  ))
              | inr (inr (inl named)) ↦ inr (
                  inr (
                    inl (
                      string_set_covers-Member deny.target_service_accounts
                        allow.target_service_accounts i.service_account accounts named)))
              | inr (inr (inr (x, named, has))) ↦ inr (
                  inr (
                    inr (
                      x,
                      string_set_covers-Member names
                          (effective_secure_tag_names ops allow.target_secure_tags) x secure named,
                      has,
                    )))
            ]
      ]

  covering_entry :
      (denied : List FirewallProtocolFact) (allow : FirewallProtocolFact)
      → any_protocol_covers ops denied allow ≡ true
      → (deny : FirewallProtocolFact) × Member deny denied
        × ((ops.equal_fold deny.protocol "all" ≡ true)
            ⊎ ((ops.equal_fold deny.protocol allow.protocol ≡ true)
                × (port_ranges_cover deny.ports allow.ports ≡ true)))
  unfolding any_protocol_covers
  covering_entry [] allow h = ground arith
  covering_entry (deny ∷ rest) allow h = elim (Bool-cases (ops.equal_fold deny.protocol "all")) [
    | inl everything ↦ (deny, inl refl, inl everything)
    | inr some_protocol ↦
        elim (Bool-cases (
          ops.equal_fold deny.protocol allow.protocol
          && port_ranges_cover deny.ports allow.ports)) [
            | inl hit ↦ (deny, inl refl, inr (ground arith, ground arith))
            | inr miss ↦
                let (found, there, how) = covering_entry rest allow (ground arith) in
                (found, inr there, how)
          ]
  ]

  covered_entry :
      (denied allowed : List FirewallProtocolFact) (entry : FirewallProtocolFact)
      → all_protocols_covered ops denied allowed ≡ true
      → Member entry allowed
      → any_protocol_covers ops denied entry ≡ true
  unfolding all_protocols_covered
  covered_entry denied [] entry h m = elim m [ ]
  covered_entry denied (allow ∷ rest) entry h (inl same) =
      subst (λ a. any_protocol_covers ops denied a ≡ true) (sym same) (ground arith)
  covered_entry denied (allow ∷ rest) entry h (inr m) =
      covered_entry denied rest entry (ground arith) m

  protocols-Speaks :
      (laws : IsFold ops) (denied allowed : List FirewallProtocolFact) (protocol : String)
      (port : ℤ)
      → firewall_protocols_cover ops denied allowed ≡ true
      → Speaks allowed protocol port
      → Speaks denied protocol port
  unfolding firewall_protocols_cover
  protocols-Speaks laws denied allowed protocol port h (entry, there, how) =
      let (deny, in_denied, covers) =
        covering_entry denied entry (covered_entry denied allowed entry (ground arith) there) in
      (
        deny,
        in_denied,
        elim covers [
          | inl everything ↦ inl everything
          | inr (same, ports) ↦ elim how [
            | inl all ↦ inl (laws.fold_trans deny.protocol entry.protocol "all" same all)
            | inr (named, has) ↦ inr (
              laws.fold_trans deny.protocol entry.protocol protocol same named,
              port_ranges_cover-ports_contain deny.ports entry.ports port ports has,
            )
          ]
        ],
      )

  -- The deny is enabled, before the allow rule, on its network and region, open to the internet, and
  -- denies to each instance that the allow rule applies to every protocol and port that it lets
  -- through. The sources of the two rules are not compared.
  pub record Overrules (deny allow : FirewallSecurityFact) : Type 0 where
    pub in_force : deny.disabled ≡ false
    pub same_network : deny.network ≡ allow.network
    pub same_region : deny.region ≡ allow.region
    pub comes_first : le_ℤ allow.effective_order deny.effective_order ≡ false
    pub from_world : allows_world ops deny ≡ true
    pub denies_all :
        (instance_ : Instance) (protocol : String) (port : ℤ)
        → IsTarget allow instance_
        → Speaks allow.allowed protocol port
        → IsTarget deny instance_ × Speaks deny.denied protocol port

  shadowing-Overrules :
      (laws : IsFold ops) (allow deny : FirewallSecurityFact)
      → is_shadowing ops allow deny ≡ true
      → Overrules deny allow
  unfolding is_shadowing
  shadowing-Overrules laws allow deny h =
      let targets : firewall_targets_cover ops deny allow ≡ true = ground arith in
      let protocols : firewall_protocols_cover ops deny.denied allow.allowed ≡ true =
        ground arith in
      record {
        in_force = ground arith;
        same_network = ground (arith, string_eq.equals_iff deny.network allow.network);
        same_region = ground (arith, string_eq.equals_iff deny.region allow.region);
        comes_first = ground arith;
        from_world = ground arith;
        denies_all = λ i protocol port target speaks. (
          targets-IsTarget deny allow i targets target,
          protocols-Speaks laws deny.denied allow.allowed protocol port protocols speaks,
        );
      }

  -- A deny that is said to shadow an allow rule is one of the project's rules and overrules it: it is
  -- enabled, before the allow rule, on its network and region, open to the internet, and denies to
  -- each instance that the allow rule applies to every protocol and port that it lets through, where
  -- folding of case is transitive.
  pub fully_shadowing_deny-Overrules :
      (laws : IsFold ops) (allow deny : FirewallSecurityFact)
      (firewalls : List FirewallSecurityFact)
      → fully_shadowing_deny ops allow firewalls ≡ some deny
      → Member deny firewalls × Overrules deny allow
  unfolding fully_shadowing_deny
  fully_shadowing_deny-Overrules laws allow deny [] h = ground arith
  fully_shadowing_deny-Overrules laws allow deny (first ∷ rest) h =
      elim (Bool-cases (is_shadowing ops allow first)) [
        | inl hit ↦
            let same : first ≡ deny = ground arith in
            (
              inl (sym same),
              subst (λ d. Overrules d allow) same (shadowing-Overrules laws allow first hit),
            )
        | inr miss ↦
            let (there, over) =
              fully_shadowing_deny-Overrules laws allow deny rest (ground arith) in
            (inr there, over)
      ]
