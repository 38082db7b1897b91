-- ===== src/Environments/Tests.antt =====
-- Two environments, with text operations that change nothing.
use aura_tracker_gcp.Prelude.{
  ℕ, String, true, false, some, [], ◌∷◌, ◌≡◌, ◌≢◌, refl, arith, ◌==◌, string_eq, ◌⊎◌, inr,
}
use aura_tracker_gcp.GoMap.{lookup, insert}
use aura_tracker_gcp.Environments.{
  TextOps, Environment, Registry, resolved, unknown_environment, get_elem?, new_registry, add,
  refusal, clashing_alias, folds_to_project, settle_default, resolve,
}
use aura_tracker_gcp.Environments.Selectors.{
  FoldsAscii, Bears, resolve_alias, resolve_project_id, resolve_sound,
}

abbrev unchanged : TextOps
unchanged = record {
  trim_space = λ s. s;
  to_lower = λ s. s;
  equal_fold = λ s t. s == t;
  is_alias = λ s. true;
  is_project_id = λ s. true;
}

unchanged-FoldsAscii : FoldsAscii unchanged
unchanged-FoldsAscii = record {
  fold_of_lower = λ a p _ _ h. ground (arith, string_eq.equals_iff a p);
}

abbrev production : Environment
production = record { project_id = "acme-prod-1"; alias = "prod"; is_default = true }

abbrev staging : Environment
staging = record { project_id = "acme-staging-1"; alias = "staging"; is_default = false }

abbrev both : Registry
both = record {
  environments = production ∷ staging ∷ [];
  by_alias = ("prod", 0) ∷ ("staging", 1) ∷ [];
  by_project_id = ("acme-prod-1", 0) ∷ ("acme-staging-1", 1) ∷ [];
  default_index = some 0;
}

both_built : new_registry unchanged (production ∷ staging ∷ []) ≡ inr both
unfolding new_registry add refusal clashing_alias folds_to_project settle_default lookup insert
both_built = refl

given : (s : String) → s == "" ≡ false → s ≢ ""
given s h k = ground (arith, string_eq.equals_iff s "")

resolve_alias_example : resolve unchanged both "staging" ≡ resolved staging
resolve_alias_example =
    resolve_alias unchanged (production ∷ staging ∷ []) both 1 staging "staging" both_built refl
      (given "staging" refl) (given "staging" refl) refl

resolve_project_id_example : resolve unchanged both "acme-prod-1" ≡ resolved production
resolve_project_id_example =
    resolve_project_id unchanged unchanged-FoldsAscii (production ∷ staging ∷ []) both 0 production
      "acme-prod-1" both_built refl refl

resolve_sound_example :
    ((e : Environment) × (i : ℕ) × (resolve unchanged both "test" ≡ resolved e)
      × (get_elem? both.environments i ≡ some e)
      × Bears unchanged e "test")
    ⊎ ((resolve unchanged both "test" ≡ unknown_environment)
        × ((e : Environment) (i : ℕ)
            → get_elem? both.environments i ≡ some e
            → Bears unchanged e "test"
            → ⊥))
resolve_sound_example =
    resolve_sound unchanged (production ∷ staging ∷ []) both "test" both_built (given "test" refl)
