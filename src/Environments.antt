-- ===== src/Environments.antt =====
-- internal/environments/registry.go: the configured projects and the names that clients see. The
-- functions of Go's `strings` and the two regular expressions are parameters.
pub mod Index
pub mod Settled
pub mod Selectors
mod Tests
use aura_tracker_gcp.Prelude.{
  ℕ, zero, suc, ◌+◌, ◌<◌, String, Bool, true, false, not, ◌&&◌, Option, none, some, List, [], ◌∷◌,
  ◌++◌, ◌==◌, string_eq, nat_eq, ltb, if◌then◌else◌, length, map, ◌⊎◌, inl, inr,
}
use aura_tracker_gcp.GoMap.{GoMap, lookup, insert}

-- strings.TrimSpace, strings.ToLower, strings.EqualFold, aliasPattern and projectIDPattern
pub record TextOps : Type 0 where
  pub trim_space : String → String
  pub to_lower : String → String
  pub equal_fold : String → String → Bool
  pub is_alias : String → Bool
  pub is_project_id : String → Bool

pub record Environment : Type 0 where
  pub project_id : String
  pub alias : String
  pub is_default : Bool

unfoldable pub display_name : Environment → String
display_name environment =
    if not (environment.alias == "") then environment.alias else environment.project_id

-- `default_index` is none for -1.
pub record Registry : Type 0 where
  pub environments : List Environment
  pub by_alias : GoMap String ℕ
  pub by_project_id : GoMap String ℕ
  pub default_index : Option ℕ

-- The refusals of `NewRegistry`, with the position that the message gives, from 1.
pub data RegistryError : Type 0 where
  no_environment : RegistryError
  project_id_required : ℕ → RegistryError
  invalid_project_id : ℕ → String → RegistryError
  duplicate_project_id : ℕ → RegistryError
  alias_required : ℕ → RegistryError
  invalid_alias : ℕ → RegistryError
  duplicate_alias : ℕ → RegistryError
  alias_is_project_id : ℕ → RegistryError
  wrong_default_count : ℕ → RegistryError

-- `unknown_environment` is ErrUnknownEnvironment, `panics` an index out of range.
pub data Resolution : Type 0 where
  resolved : Environment → Resolution
  unknown_environment : Resolution
  panics : Resolution

abbrev pub is_some {ℓ} : {A : Type ℓ} → Option A → Bool
is_some none = false
is_some (some a) = true

-- xs[i]
abbrev pub get_elem? {ℓ} : {A : Type ℓ} → List A → ℕ → Option A
get_elem? [] i = none
get_elem? (x ∷ xs) zero = some x
get_elem? (x ∷ xs) (suc i) = get_elem? xs i

abbrev pub element : Option Environment → Resolution
element none = panics
element (some environment) = resolved environment

unfoldable pub default_of : Registry → Resolution
default_of r = elim r.default_index [
  | none ↦ panics
  | some i ↦ element (get_elem? r.environments i)
]

abbrev pub empty_registry : Registry
empty_registry = record {
  environments = [];
  by_alias = [];
  by_project_id = [];
  default_index = none;
}

-- The first environment becomes the default one.
abbrev pub mark_first : List Environment → List Environment
mark_first [] = []
mark_first (environment ∷ rest) = record environment { is_default = true } ∷ rest

module _ (text : TextOps) where
  open text use {trim_space, to_lower, equal_fold, is_alias, is_project_id}

  abbrev pub trimmed : Environment → Environment
  trimmed candidate = record candidate {
    project_id = trim_space candidate.project_id;
    alias = trim_space candidate.alias;
  }

  -- Why the loop refuses a candidate at index `i`.
  unfoldable pub refusal : ℕ → ℕ → Environment → Registry → Option RegistryError
  refusal many i candidate r =
      if candidate.project_id == ""
      then some (project_id_required (i + 1))
      else if not (is_project_id candidate.project_id)
      then some (invalid_project_id (i + 1) candidate.project_id)
      else if is_some (lookup candidate.project_id r.by_project_id)
      then some (duplicate_project_id (i + 1))
      else if ltb 1 many && candidate.alias == ""
      then some (alias_required (i + 1))
      else if candidate.alias == ""
      then none
      else if not (is_alias candidate.alias)
      then some (invalid_alias (i + 1))
      else if is_some (lookup (to_lower candidate.alias) r.by_alias)
      then some (duplicate_alias (i + 1))
      else none

  unfoldable pub add : ℕ → Environment → Registry → Registry
  add i candidate r = record {
    environments = r.environments ++ candidate ∷ [];
    by_alias =
        if candidate.alias == ""
        then r.by_alias
        else insert (to_lower candidate.alias) i r.by_alias;
    by_project_id = insert candidate.project_id i r.by_project_id;
    default_index = if candidate.is_default then some i else r.default_index;
  }

  unfoldable pub add_all : ℕ → ℕ → List Environment → Registry → RegistryError ⊎ Registry
  add_all many i [] r = inr r
  add_all many i (candidate ∷ rest) r =
      let next = add_all many (i + 1) rest (add i (trimmed candidate) r) in
      elim (refusal many i (trimmed candidate) r) [ some e ↦ inl e | none ↦ next ]

  unfoldable pub folds_to_project : String → List Environment → Bool
  folds_to_project alias [] = false
  folds_to_project alias (other ∷ rest) =
      if equal_fold alias other.project_id then true else folds_to_project alias rest

  -- The loop that looks for an alias that is a project id.
  unfoldable pub clashing_alias : ℕ → List Environment → List Environment → Option RegistryError
  unfolding folds_to_project
  clashing_alias i [] all = none
  clashing_alias i (environment ∷ rest) all =
      let later = clashing_alias (i + 1) rest all in
      if environment.alias == ""
      then later
      else if folds_to_project environment.alias all
      then some (alias_is_project_id (i + 1))
      else later

  unfoldable pub count_defaults : List Environment → ℕ
  count_defaults [] = 0
  count_defaults (environment ∷ rest) =
      let more = count_defaults rest in if environment.is_default then suc more else more

  unfoldable pub settle_default : Registry → RegistryError ⊎ Registry
  unfolding count_defaults
  settle_default r =
      if length r.environments == 1
      then inr (record r { environments = mark_first r.environments; default_index = some 0 })
      else if not (count_defaults r.environments == 1)
      then inl (wrong_default_count (count_defaults r.environments))
      else inr r

  abbrev pub checked : RegistryError ⊎ Registry → RegistryError ⊎ Registry
  checked (inl e) = inl e
  checked (inr r) = elim (clashing_alias 0 r.environments r.environments) [
    | some e ↦ inl e
    | none ↦ settle_default r
  ]

  unfoldable pub new_registry : List Environment → RegistryError ⊎ Registry
  unfolding add_all
  new_registry [] = inl no_environment
  new_registry (first ∷ rest) =
      checked (add_all (length (first ∷ rest)) 0 (first ∷ rest) empty_registry)

  unfoldable pub resolve : Registry → String → Resolution
  unfolding default_of
  resolve r selector =
      let name = trim_space selector in
      if name == "" then default_of r else elim (lookup (to_lower name) r.by_alias) [
        | some i ↦ element (get_elem? r.environments i)
        | none ↦ elim (lookup name r.by_project_id) [
          | some i ↦ element (get_elem? r.environments i)
          | none ↦ unknown_environment
        ]
      ]
