-- ===== src/SecurityAudit/Suppressions/Config/Valid.antt =====
-- Which configurations pass.
use aura_tracker_gcp.Prelude.{
  ℕ, ◌+◌, true, false, none, some, List, [], ◌∷◌, ◌≡◌, ◌≢◌, refl, sym, ◌∙◌, ap, arith, string_eq,
  All, ◌↔◌, Option-cases, inl, inr,
}
use aura_tracker_gcp.SecurityAudit.Suppressions.{Suppression, LibraryOps, parse_suppression_expiry}
use aura_tracker_gcp.SecurityAudit.Suppressions.Config.{
  Config, is_access, is_negative, validate_suppression, validate_suppressions, or_else,
  validate_config,
}

module _ (library : LibraryOps) where
  -- The suppression names a rule, a resource and a reason, and has an end.
  pub record IsExplicit (suppression : Suppression) : Type 0 where
    pub names_rule : library.trim_space suppression.rule_id ≢ ""
    pub names_resource : library.trim_space suppression.resource ≢ ""
    pub gives_reason : library.trim_space suppression.reason ≢ ""
    pub ends :
        (expires : ℕ) × (parse_suppression_expiry library suppression.expires_at ≡ some expires)

  -- The access is one of the known ones, no limit is negative, and every suppression is explicit.
  pub record IsValid (cfg : Config) : Type 0 where
    pub known_access : is_access cfg.kubernetes_access ≡ true
    pub concurrency : is_negative cfg.cluster_concurrency ≡ false
    pub timeout : is_negative cfg.per_cluster_timeout_seconds ≡ false
    pub resources : is_negative cfg.max_resources_per_kind ≡ false
    pub explicit : All IsExplicit cfg.suppressions

  validate_suppression-IsExplicit :
      (i : ℕ) (s : Suppression) → (validate_suppression library i s ≡ none) ↔ IsExplicit s
  unfolding validate_suppression
  validate_suppression-IsExplicit i s =
      let rule = string_eq.equals_iff (library.trim_space s.rule_id) "" in
      let resource = string_eq.equals_iff (library.trim_space s.resource) "" in
      let reason = string_eq.equals_iff (library.trim_space s.reason) "" in
      elim (Option-cases (parse_suppression_expiry library s.expires_at)) [
        | inl endless ↦ (
          (λ h. ground (arith, rule, resource, reason)),
          (λ e. let same = sym endless ∙ e.ends.1 in ground arith),
        )
        | inr (expires, ends) ↦ (
          (λ h. record {
            names_rule = λ k. ground (arith, rule);
            names_resource = λ k. ground (arith, rule, resource);
            gives_reason = λ k. ground (arith, rule, resource, reason);
            ends = (expires, ends);
          }),
          (λ e.
              let n = e.names_rule in
              let r = e.names_resource in
              let g = e.gives_reason in ground (arith, rule, resource, reason)),
        )
      ]

  validate_suppressions-IsExplicit :
      (i : ℕ) (ss : List Suppression)
      → (validate_suppressions library i ss ≡ none) ↔ All IsExplicit ss
  unfolding validate_suppressions
  validate_suppressions-IsExplicit i [] = ((λ h. tt), (λ a. refl))
  validate_suppressions-IsExplicit i (s ∷ ss) =
      let (to, from) = validate_suppression-IsExplicit i s in
      let (to_rest, from_rest) = validate_suppressions-IsExplicit (i + 1) ss in
      elim (Option-cases (validate_suppression library i s)) [
        | inl fine ↦ (
          (λ h. (
            to fine,
            to_rest (
                sym (ap (λ o. or_else library o (validate_suppressions library (i + 1) ss)) fine)
                ∙ h),
          )),
          (λ a.
              ap (λ o. or_else library o (validate_suppressions library (i + 1) ss)) fine
              ∙ from_rest a.1),
        )
        | inr (err, bad) ↦ (
          (λ h.
              let same =
                sym (ap (λ o. or_else library o (validate_suppressions library (i + 1) ss)) bad)
                ∙ h in
              ground arith),
          (λ a. let same = sym bad ∙ from a.0 in ground arith),
        )
      ]

  -- A configuration passes exactly if its access is one of the known ones, none of its limits is
  -- negative, and each of its suppressions names a rule, a resource and a reason and has an end.
  pub validate_config-IsValid_iff :
      (cfg : Config) → (validate_config library cfg ≡ none) ↔ IsValid cfg
  unfolding validate_config
  validate_config-IsValid_iff cfg =
      let (to, from) = validate_suppressions-IsExplicit 0 cfg.suppressions in
      (
        (λ h. record {
          known_access = ground arith;
          concurrency = ground arith;
          timeout = ground arith;
          resources = ground arith;
          explicit = to (ground arith);
        }),
        (λ v. let passed = from v.explicit in ground arith),
      )
