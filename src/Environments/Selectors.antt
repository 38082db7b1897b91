-- ===== src/Environments/Selectors.antt =====
-- How a registry that `NewRegistry` builds resolves the selectors that clients send.
use aura_tracker_gcp.Prelude.{
  ℕ, String, true, none, some, List, ◌≡◌, ◌≢◌, ◌∙◌, sym, ap, arith, string_eq, ◌⊎◌, inl, inr,
  Option-cases,
}
use aura_tracker_gcp.GoMap.{lookup}
use aura_tracker_gcp.Environments.{
  TextOps, Environment, Registry, resolved, unknown_environment, get_elem?, new_registry, resolve,
}
use aura_tracker_gcp.Environments.Settled.{new_registry-IsSettled}

-- Names that the two patterns let through are ASCII: those that are the same in lower case fold
-- to each other.
pub record FoldsAscii (text : TextOps) : Type 0 where
  pub fold_of_lower :
      (alias project : String)
      → text.is_alias alias ≡ true
      → text.is_project_id project ≡ true
      → text.to_lower alias ≡ text.to_lower project
      → text.equal_fold alias project ≡ true

module _ (text : TextOps) where
  open text use {trim_space, to_lower, equal_fold, is_alias, is_project_id}

  resolve_by_alias :
      (r : Registry) (selector : String) (i : ℕ) (e : Environment)
      → trim_space selector ≢ ""
      → lookup (to_lower (trim_space selector)) r.by_alias ≡ some i
      → get_elem? r.environments i ≡ some e
      → resolve text r selector ≡ resolved e
  unfolding resolve
  resolve_by_alias r selector i e given at there =
      ground (arith, string_eq.equals_iff (trim_space selector) "")

  resolve_by_project :
      (r : Registry) (selector : String) (i : ℕ) (e : Environment)
      → trim_space selector ≢ ""
      → lookup (to_lower (trim_space selector)) r.by_alias ≡ none
      → lookup (trim_space selector) r.by_project_id ≡ some i
      → get_elem? r.environments i ≡ some e
      → resolve text r selector ≡ resolved e
  unfolding resolve
  resolve_by_project r selector i e given no_alias at there =
      ground (arith, string_eq.equals_iff (trim_space selector) "")

  resolve_unknown :
      (r : Registry) (selector : String)
      → trim_space selector ≢ ""
      → lookup (to_lower (trim_space selector)) r.by_alias ≡ none
      → lookup (trim_space selector) r.by_project_id ≡ none
      → resolve text r selector ≡ unknown_environment
  unfolding resolve
  resolve_unknown r selector given no_alias no_project =
      ground (arith, string_eq.equals_iff (trim_space selector) "")

  -- A configured alias, in any case and with spaces around it, resolves to its environment.
  pub resolve_alias :
      (input : List Environment) (r : Registry) (i : ℕ) (e : Environment) (selector : String)
      → new_registry text input ≡ inr r
      → get_elem? r.environments i ≡ some e
      → e.alias ≢ ""
      → trim_space selector ≢ ""
      → to_lower (trim_space selector) ≡ to_lower e.alias
      → resolve text r selector ≡ resolved e
  resolve_alias input r i e selector built there named given same =
      let v = (new_registry-IsSettled text input r built).indexed in
      resolve_by_alias r selector i e given
        (ap (λ a. lookup a r.by_alias) same ∙ v.alias_of e i there named) there

  -- A configured project id, with spaces around it, resolves to its environment: no alias hides it.
  pub resolve_project_id :
      (laws : FoldsAscii text) (input : List Environment) (r : Registry) (i : ℕ) (e : Environment)
      (selector : String)
      → new_registry text input ≡ inr r
      → get_elem? r.environments i ≡ some e
      → trim_space selector ≡ e.project_id
      → resolve text r selector ≡ resolved e
  resolve_project_id laws input r i e selector built there same =
      let settled = new_registry-IsSettled text input r built in
      let v = settled.indexed in
      let (named, valid, _) = v.well_named e i there in
      let at : lookup (trim_space selector) r.by_project_id ≡ some i =
        ap (λ p. lookup p r.by_project_id) same ∙ v.project_of e i there in
      elim (Option-cases (lookup (to_lower (trim_space selector)) r.by_alias)) [
        | inl no_alias ↦
            resolve_by_project r selector i e (λ k. named (sym same ∙ k)) no_alias at there
        | inr (j, hidden) ↦
            let (other, at', given, lowered) =
              v.alias_at (to_lower (trim_space selector)) j hidden in
            let apart = settled.apart other e j i at' given there in
            let shaped : is_alias other.alias ≡ true =
              ground (arith, v.well_named other j at', given) in
            let folds =
              laws.fold_of_lower other.alias e.project_id shaped valid
                (lowered ∙ ap to_lower same) in
            ground arith
      ]

  -- The environment bears the selector: its alias does, up to case, or its project id does.
  abbrev pub Bears : Environment → String → Type 0
  Bears e selector =
      ((e.alias ≢ "") × (to_lower e.alias ≡ to_lower (trim_space selector)))
      ⊎ (e.project_id ≡ trim_space selector)

  -- A selector that is not blank resolves to a configured environment that bears it, or to none if
  -- no configured environment does. It never panics.
  pub resolve_sound :
      (input : List Environment) (r : Registry) (selector : String)
      → new_registry text input ≡ inr r
      → trim_space selector ≢ ""
      → ((e : Environment) × (i : ℕ) × (resolve text r selector ≡ resolved e)
          × (get_elem? r.environments i ≡ some e)
          × Bears e selector)
        ⊎ ((resolve text r selector ≡ unknown_environment)
            × ((e : Environment) (i : ℕ)
                → get_elem? r.environments i ≡ some e
                → Bears e selector
                → ⊥))
  resolve_sound input r selector built given =
      let v = (new_registry-IsSettled text input r built).indexed in
      let name = trim_space selector in
      elim (Option-cases (lookup (to_lower name) r.by_alias)) [
        | inr (i, hit) ↦
            let (e, at, named, same) = v.alias_at (to_lower name) i hit in
            inl (e, i, resolve_by_alias r selector i e given hit at, at, inl (named, same))
        | inl no_alias ↦ elim (Option-cases (lookup name r.by_project_id)) [
          | inr (i, hit) ↦
              let (e, at, same) = v.project_at name i hit in
              inl (e, i, resolve_by_project r selector i e given no_alias hit at, at, inr same)
          | inl no_project ↦ inr (
            resolve_unknown r selector given no_alias no_project,
            (λ e i at bears. elim bears [
              | inl (named, same) ↦
                  let hit = v.alias_of e i at named in
                  let hit' : lookup (to_lower name) r.by_alias ≡ some i =
                    ap (λ a. lookup a r.by_alias) (sym same) ∙ hit in
                  ground arith
              | inr same ↦
                  let hit = v.project_of e i at in
                  let hit' : lookup name r.by_project_id ≡ some i =
                    ap (λ a. lookup a r.by_project_id) (sym same) ∙ hit in
                  ground arith
            ]),
          )
        ]
      ]
