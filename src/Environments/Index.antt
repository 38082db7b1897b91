-- ===== src/Environments/Index.antt =====
-- What the two maps of a registry hold after the loop of `NewRegistry`.
use aura_tracker_gcp.Prelude.{
  ℕ, zero, suc, ◌+◌, ◌<◌, String, true, false, not, Option, none, some, List, [], ◌∷◌, ◌++◌, ◌≡◌,
  ◌≢◌, refl, ◌∙◌, sym, subst, ap, arith, ◌==◌, string_eq, nat_eq, ◌&&◌, if◌then◌else◌, length,
  length-append, ◌⊎◌, inl, inr, Option-cases, Bool-cases,
}
use aura_tracker_gcp.GoMap.{lookup, insert, lookup-insert}
use aura_tracker_gcp.Environments.{
  TextOps, Environment, Registry, get_elem?, is_some, trimmed, refusal, add, add_all,
  empty_registry,
}

get_elem-append :
    (xs : List Environment) (x : Environment) (i : ℕ)
    → get_elem? (xs ++ x ∷ []) i ≡ (if i == length xs then some x else get_elem? xs i)
get_elem-append [] x zero = refl
get_elem-append [] x (suc i) = ground arith
get_elem-append (y ∷ xs) x zero = ground arith
get_elem-append (y ∷ xs) x (suc i) = ground (
  arith,
  get_elem-append xs x i,
  nat_eq.equals_iff i (length xs),
  nat_eq.equals_iff (suc i) (suc (length xs)),
)

get_elem-lt :
    (xs : List Environment) (i : ℕ) (x : Environment) → get_elem? xs i ≡ some x → i < length xs
get_elem-lt [] i x h = ground arith
get_elem-lt (y ∷ xs) zero x h = ground arith
get_elem-lt (y ∷ xs) (suc i) x h = ground (arith, get_elem-lt xs i x)

module _ (text : TextOps) where
  open text use {to_lower, is_alias, is_project_id}

  -- Each map holds exactly the names of the environments, with their positions.
  pub record IsIndexed (r : Registry) : Type 0 where
    pub project_at :
        (p : String) (i : ℕ)
        → lookup p r.by_project_id ≡ some i
        → (e : Environment) × (get_elem? r.environments i ≡ some e) × (e.project_id ≡ p)
    pub project_of :
        (e : Environment) (i : ℕ)
        → get_elem? r.environments i ≡ some e
        → lookup e.project_id r.by_project_id ≡ some i
    pub alias_at :
        (a : String) (i : ℕ)
        → lookup a r.by_alias ≡ some i
        → (e : Environment) × (get_elem? r.environments i ≡ some e)
          × (e.alias ≢ "")
          × (to_lower e.alias ≡ a)
    pub alias_of :
        (e : Environment) (i : ℕ)
        → get_elem? r.environments i ≡ some e
        → e.alias ≢ ""
        → lookup (to_lower e.alias) r.by_alias ≡ some i
    pub well_named :
        (e : Environment) (i : ℕ)
        → get_elem? r.environments i ≡ some e
        → (e.project_id ≢ "")
          × (is_project_id e.project_id ≡ true)
          × ((e.alias ≡ "") ⊎ (is_alias e.alias ≡ true))

  empty-IsIndexed : IsIndexed empty_registry
  unfolding lookup
  empty-IsIndexed = record {
    project_at = λ p i h. ground arith;
    project_of = λ e i h. ground arith;
    alias_at = λ a i h. ground arith;
    alias_of = λ e i h. ground arith;
    well_named = λ e i h. ground arith;
  }

  record IsAccepted (c : Environment) (r : Registry) : Type 0 where
    project_named : c.project_id ≢ ""
    project_valid : is_project_id c.project_id ≡ true
    project_new : lookup c.project_id r.by_project_id ≡ none
    alias_valid :
        (c.alias ≡ "") ⊎ ((is_alias c.alias ≡ true) × (lookup (to_lower c.alias) r.by_alias ≡ none))

  not_some : {A : Type 0} → (o : Option A) → is_some o ≡ false → o ≡ none
  not_some none h = refl
  not_some (some a) h = ground arith

  refusal-IsAccepted :
      (many i : ℕ) (c : Environment) (r : Registry)
      → refusal text many i c r ≡ none
      → IsAccepted c r
  unfolding refusal
  refusal-IsAccepted many i c r h = record {
    project_named = ground (arith, string_eq.equals_iff c.project_id "");
    project_valid = ground arith;
    project_new = ground (arith, not_some (lookup c.project_id r.by_project_id));
    alias_valid = elim (Bool-cases (c.alias == "")) [
      | inl none_given ↦ inl (ground (arith, string_eq.equals_iff c.alias ""))
      | inr given ↦
          inr (ground arith, ground (arith, not_some (lookup (to_lower c.alias) r.by_alias)))
    ];
  }

  module _ (c : Environment) (r : Registry) (ok : IsAccepted c r) (v : IsIndexed r) where
    at_end :
        (i : ℕ)
        → get_elem? (r.environments ++ c ∷ []) i
          ≡ (if i == length r.environments then some c else get_elem? r.environments i)
    at_end i = get_elem-append r.environments c i

    -- The environment at an index is the new one, at the end, or was there before.
    added_cases :
        (e : Environment) (i : ℕ)
        → get_elem? (r.environments ++ c ∷ []) i ≡ some e
        → ((i ≡ length r.environments) × (c ≡ e))
          ⊎ ((i < length r.environments) × (get_elem? r.environments i ≡ some e))
    added_cases e i h = elim (Bool-cases (i == length r.environments)) [
      | inl new ↦
          inl
            (ground (arith, nat_eq.equals_iff i (length r.environments)), ground (arith, at_end i))
      | inr old ↦
          let there : get_elem? r.environments i ≡ some e = ground (arith, at_end i) in
          inr (get_elem-lt r.environments i e there, there)
    ]

    kept_at :
        (e : Environment) (i : ℕ)
        → get_elem? r.environments i ≡ some e
        → get_elem? (r.environments ++ c ∷ []) i ≡ some e
    kept_at e i h = ground (
      arith,
      at_end i,
      get_elem-lt r.environments i e h,
      nat_eq.equals_iff i (length r.environments),
    )

    new_at : get_elem? (r.environments ++ c ∷ []) (length r.environments) ≡ some c
    new_at = ground (
      arith,
      at_end (length r.environments),
      nat_eq.equals_iff (length r.environments) (length r.environments),
    )

    new_at_eq :
        (i : ℕ) → i ≡ length r.environments → get_elem? (r.environments ++ c ∷ []) i ≡ some c
    new_at_eq i h = ap (get_elem? (r.environments ++ c ∷ [])) h ∙ new_at

    project_at_add :
        (p : String) (i : ℕ)
        → lookup p (insert c.project_id (length r.environments) r.by_project_id) ≡ some i
        → (e : Environment) × (get_elem? (r.environments ++ c ∷ []) i ≡ some e) × (e.project_id ≡ p)
    project_at_add p i h =
        let there = lookup-insert c.project_id p (length r.environments) r.by_project_id in
        elim (Bool-cases (c.project_id == p)) [
          | inl same ↦
              (c, new_at_eq i (ground arith), ground (arith, string_eq.equals_iff c.project_id p))
          | inr other ↦
              let (e, at, named) = v.project_at p i (ground arith) in (e, kept_at e i at, named)
        ]

    project_of_add :
        (e : Environment) (i : ℕ)
        → get_elem? (r.environments ++ c ∷ []) i ≡ some e
        → lookup e.project_id (insert c.project_id (length r.environments) r.by_project_id) ≡ some i
    project_of_add e i h =
        let there =
          lookup-insert c.project_id e.project_id (length r.environments) r.by_project_id in
        elim (added_cases e i h) [
          | inl (last, same) ↦
              let named : c.project_id ≡ e.project_id =
                ap (λ (x : Environment). x.project_id) same in
              ground (arith, string_eq.equals_iff c.project_id e.project_id)
          | inr (before, old) ↦ ground (
            arith,
            v.project_of e i old,
            ok.project_new,
            string_eq.equals_iff c.project_id e.project_id,
          )
        ]

    alias_at_add :
        (a : String) (i : ℕ)
        → lookup a (add text (length r.environments) c r).by_alias ≡ some i
        → (e : Environment) × (get_elem? (r.environments ++ c ∷ []) i ≡ some e)
          × (e.alias ≢ "")
          × (to_lower e.alias ≡ a)
    unfolding add
    alias_at_add a i h =
        let there = lookup-insert (to_lower c.alias) a (length r.environments) r.by_alias in
        elim (Bool-cases (not (c.alias == "") && to_lower c.alias == a)) [
          | inl same ↦ (
            c,
            new_at_eq i (ground arith),
            ground (arith, string_eq.equals_iff c.alias ""),
            ground (arith, string_eq.equals_iff (to_lower c.alias) a),
          )
          | inr other ↦
              let (e, at, given, named) = v.alias_at a i (ground arith) in
              (e, kept_at e i at, given, named)
        ]

    alias_of_add :
        (e : Environment) (i : ℕ)
        → get_elem? (r.environments ++ c ∷ []) i ≡ some e
        → e.alias ≢ ""
        → lookup (to_lower e.alias) (add text (length r.environments) c r).by_alias ≡ some i
    unfolding add
    alias_of_add e i h given =
        let there =
          lookup-insert (to_lower c.alias) (to_lower e.alias) (length r.environments) r.by_alias in
        elim (added_cases e i h) [
          | inl (last, same) ↦
              let named : c.alias ≡ e.alias = ap (λ (x : Environment). x.alias) same in
              let lowered : to_lower c.alias ≡ to_lower e.alias = ap to_lower named in
              let given' : c.alias ≢ "" = λ k. given (sym named ∙ k) in
              ground (
                arith,
                string_eq.equals_iff c.alias "",
                string_eq.equals_iff (to_lower c.alias) (to_lower e.alias),
              )
          | inr (before, old) ↦ ground (
            arith,
            v.alias_of e i old given,
            ok.alias_valid,
            string_eq.equals_iff c.alias "",
            string_eq.equals_iff (to_lower c.alias) (to_lower e.alias),
          )
        ]

    well_named_add :
        (e : Environment) (i : ℕ)
        → get_elem? (r.environments ++ c ∷ []) i ≡ some e
        → (e.project_id ≢ "")
          × (is_project_id e.project_id ≡ true)
          × ((e.alias ≡ "") ⊎ (is_alias e.alias ≡ true))
    well_named_add e i h = elim (added_cases e i h) [
      | inl (last, same) ↦
          subst
            (λ x.
              (x.project_id ≢ "")
              × (is_project_id x.project_id ≡ true)
              × ((x.alias ≡ "") ⊎ (is_alias x.alias ≡ true)))
            same
            (
              ok.project_named,
              ok.project_valid,
              elim ok.alias_valid [ inl k ↦ inl k | inr k ↦ inr k.0 ],
            )
      | inr (before, old) ↦ v.well_named e i old
    ]

    add-IsIndexed : IsIndexed (add text (length r.environments) c r)
    unfolding add
    add-IsIndexed = record {
      project_at = project_at_add;
      project_of = project_of_add;
      alias_at = alias_at_add;
      alias_of = alias_of_add;
      well_named = well_named_add;
    }

  add-length :
      (c : Environment) (i : ℕ) (r : Registry)
      → length (add text i c r).environments ≡ length r.environments + 1
  unfolding add
  add-length c i r = omega (arith, length-append r.environments (c ∷ []))

  add_all-IsIndexed :
      (many i : ℕ) (input : List Environment) (r built : Registry)
      → i ≡ length r.environments
      → IsIndexed r
      → add_all text many i input r ≡ inr built
      → IsIndexed built
  unfolding add_all
  add_all-IsIndexed many i [] r built at v h = subst IsIndexed (ground arith) v
  add_all-IsIndexed many i (c ∷ rest) r built at v h =
      elim (Option-cases (refusal text many i (trimmed text c) r)) [
        | inl ok ↦
            add_all-IsIndexed many (i + 1) rest (add text i (trimmed text c) r) built
              (omega (arith, add-length (trimmed text c) i r))
              (subst (λ j. IsIndexed (add text j (trimmed text c) r)) (sym at)
                (add-IsIndexed (trimmed text c) r (refusal-IsAccepted many i (trimmed text c) r ok)
                  v))
              (ground arith)
        | inr (e, refused) ↦ ground arith
      ]

  pub built-IsIndexed :
      (many : ℕ) (input : List Environment) (built : Registry)
      → add_all text many 0 input empty_registry ≡ inr built
      → IsIndexed built
  built-IsIndexed many input built h =
      add_all-IsIndexed many 0 input empty_registry built refl empty-IsIndexed h
