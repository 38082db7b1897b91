-- ===== src/Environments/Settled.antt =====
-- What holds of a registry that `NewRegistry` builds.
use aura_tracker_gcp.Prelude.{
  ℕ, zero, suc, ◌+◌, String, true, false, Option, none, some, List, [], ◌∷◌, ◌≡◌, ◌≢◌, refl, ◌∙◌,
  sym, subst, ap, arith, ◌==◌, string_eq, nat_eq, length, ◌⊎◌, inl, inr, Option-cases, Bool-cases,
}
use aura_tracker_gcp.GoMap.{lookup}
use aura_tracker_gcp.Environments.{
  TextOps, Environment, Registry, RegistryError, get_elem?, mark_first, empty_registry, add_all,
  folds_to_project, clashing_alias, settle_default, checked, new_registry,
}
use aura_tracker_gcp.Environments.Index.{IsIndexed, built-IsIndexed}

-- Two environments with the same names.
abbrev SameNames : Environment → Environment → Type 0
SameNames a b = (a.project_id ≡ b.project_id) × (a.alias ≡ b.alias)

marked_from :
    (xs : List Environment) (i : ℕ) (e : Environment)
    → get_elem? (mark_first xs) i ≡ some e
    → (old : Environment) × (get_elem? xs i ≡ some old) × SameNames old e
marked_from [] i e h = ground arith
marked_from (x ∷ xs) zero e h = (x, refl, (ground arith, ground arith))
marked_from (x ∷ xs) (suc i) e h = (e, h, (refl, refl))

marked_to :
    (xs : List Environment) (i : ℕ) (old : Environment)
    → get_elem? xs i ≡ some old
    → (e : Environment) × (get_elem? (mark_first xs) i ≡ some e) × SameNames old e
marked_to [] i old h = ground arith
marked_to (x ∷ xs) zero old h = (record x { is_default = true }, refl, (ground arith, ground arith))
marked_to (x ∷ xs) (suc i) old h = (old, h, (refl, refl))

module _ (text : TextOps) where
  open text use {trim_space, to_lower, equal_fold, is_alias, is_project_id}

  mark-IsIndexed :
      (r : Registry) (d : Option ℕ)
      → IsIndexed text r
      → IsIndexed text (record r { environments = mark_first r.environments; default_index = d })
  mark-IsIndexed r d v = record {
    project_at = λ p i h.
        let (old, at, named) = v.project_at p i h in
        let (e, there, names) = marked_to r.environments i old at in
        (e, there, sym names.0 ∙ named);
    project_of = λ e i h.
        let (old, at, names) = marked_from r.environments i e h in
        subst (λ p. lookup p r.by_project_id ≡ some i) names.0 (v.project_of old i at);
    alias_at = λ a i h.
        let (old, at, given, named) = v.alias_at a i h in
        let (e, there, names) = marked_to r.environments i old at in
        (e, there, (λ k. given (names.1 ∙ k)), ap to_lower (sym names.1) ∙ named);
    alias_of = λ e i h given.
        let (old, at, names) = marked_from r.environments i e h in
        subst (λ a. lookup (to_lower a) r.by_alias ≡ some i) names.1
          (v.alias_of old i at (λ k. given (sym names.1 ∙ k)));
    well_named = λ e i h.
        let (old, at, names) = marked_from r.environments i e h in
        subst
          (λ p. (p ≢ "") × (is_project_id p ≡ true) × ((e.alias ≡ "") ⊎ (is_alias e.alias ≡ true)))
          names.0
          (subst
            (λ a.
              (old.project_id ≢ "")
              × (is_project_id old.project_id ≡ true)
              × ((a ≡ "") ⊎ (is_alias a ≡ true)))
            names.1 (v.well_named old i at));
  }

  -- No alias of the first environments folds to a project id of the others.
  abbrev Apart : List Environment → List Environment → Type 0
  Apart xs all =
      (e other : Environment) (i j : ℕ)
      → get_elem? xs i ≡ some e
      → e.alias ≢ ""
      → get_elem? all j ≡ some other
      → equal_fold e.alias other.project_id ≡ false

  folds_apart :
      (alias : String) (all : List Environment) (other : Environment) (j : ℕ)
      → folds_to_project text alias all ≡ false
      → get_elem? all j ≡ some other
      → equal_fold alias other.project_id ≡ false
  unfolding folds_to_project
  folds_apart alias [] other j h at = ground arith
  folds_apart alias (x ∷ all) other zero h at =
      let same : x ≡ other = ground arith in
      subst (λ (o : Environment). equal_fold alias o.project_id ≡ false) same (ground arith)
  folds_apart alias (x ∷ all) other (suc j) h at = folds_apart alias all other j (ground arith) at

  clashing_alias-none :
      (n : ℕ) (xs all : List Environment) → clashing_alias text n xs all ≡ none → Apart xs all
  unfolding clashing_alias
  clashing_alias-none n [] all h e other i j at given there = ground arith
  clashing_alias-none n (x ∷ xs) all h e other zero j at given there =
      let same : x ≡ e = ground arith in
      let named : x.alias ≡ e.alias = ap (λ (o : Environment). o.alias) same in
      let given' : x.alias ≢ "" = λ k. given (sym named ∙ k) in
      subst (λ a. equal_fold a other.project_id ≡ false) named
        (folds_apart x.alias all other j (ground (arith, string_eq.equals_iff x.alias "")) there)
  clashing_alias-none n (x ∷ xs) all h e other (suc i) j at given there =
      clashing_alias-none (n + 1) xs all (ground arith) e other i j at given there

  pub record IsSettled (r : Registry) : Type 0 where
    pub indexed : IsIndexed text r
    pub apart : Apart r.environments r.environments

  settle-IsSettled :
      (r built : Registry) → IsSettled r → settle_default text r ≡ inr built → IsSettled built
  unfolding settle_default
  settle-IsSettled r built v h = elim (Bool-cases (length r.environments == 1)) [
    | inl one ↦
        let same : record r { environments = mark_first r.environments; default_index = some 0 }
            ≡ built =
          ground arith in
        subst IsSettled same (record {
          indexed = mark-IsIndexed r (some 0) v.indexed;
          apart = λ e other i j at given there.
              let (old, at', names) = marked_from r.environments i e at in
              let (old', there', names') = marked_from r.environments j other there in
              subst (λ p. equal_fold e.alias p ≡ false) names'.0
                (subst (λ a. equal_fold a old'.project_id ≡ false) names.1
                  (v.apart old old' i j at' (λ k. given (sym names.1 ∙ k)) there'));
        })
    | inr more ↦ subst IsSettled (ground arith) v
  ]

  pub new_registry-IsSettled :
      (input : List Environment) (r : Registry) → new_registry text input ≡ inr r → IsSettled r
  unfolding new_registry
  new_registry-IsSettled [] r h = ground arith
  new_registry-IsSettled (first ∷ rest) r h =
      checked_cases (add_all text (length (first ∷ rest)) 0 (first ∷ rest) empty_registry)
        (built-IsIndexed text (length (first ∷ rest)) (first ∷ rest)) h
    where
      checked_cases :
          (o : RegistryError ⊎ Registry)
          → ((built : Registry) → o ≡ inr built → IsIndexed text built)
          → checked text o ≡ inr r
          → IsSettled r
      checked_cases (inl e) v h = ground arith
      checked_cases (inr built) v h =
          elim (Option-cases (clashing_alias text 0 built.environments built.environments)) [
            | inl clear ↦
                settle-IsSettled built r
                  (record {
                    indexed = v built refl;
                    apart = clashing_alias-none 0 built.environments built.environments clear;
                  })
                  (ground arith)
            | inr (e, clash) ↦ ground arith
          ]
