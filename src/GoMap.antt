-- ===== src/GoMap.antt =====
-- Go's `map[K]V` as an association list: index, assignment, `delete`, and the deletion of entries
-- inside a `for … range` loop. Go leaves the order of iteration open; here it is the order of the
-- list, and a module that iterates says what follows for every order.
pub mod Range
use aura_tracker_gcp.Prelude.{
  ◌+◌, ◌≤◌, ◌≡◌, refl, Bool, Option, none, some, List, [], ◌∷◌, arith, Eq, ◌==◌, if◌then◌else◌,
  length,
}

abbrev pub GoMap {ℓ κ} : Type ℓ → Type κ → Type (ℓ ⊔ κ)
GoMap K V = List (K × V)

-- The value, unless a test drops it.
abbrev pub unless {ℓ} : {V : Type ℓ} → (V → Bool) → Option V → Option V
unless drop none = none
unless drop (some v) = if drop v then none else some v

module _ {ℓ κ} {K : Type ℓ} {V : Type κ} ⦃e : Eq K⦄ where
  -- v, ok := m[k]
  unfoldable pub lookup : K → GoMap K V → Option V
  lookup key [] = none
  lookup key ((k, value) ∷ rest) = if k == key then some value else lookup key rest

  -- m[k] = v
  unfoldable pub insert : K → V → GoMap K V → GoMap K V
  insert key new [] = (key, new) ∷ []
  insert key new ((k, old) ∷ rest) =
      if k == key then (key, new) ∷ rest else (k, old) ∷ insert key new rest

  -- delete(m, k)
  unfoldable pub delete : K → GoMap K V → GoMap K V
  delete k [] = []
  delete k ((j, v) ∷ m) = let rest = delete k m in if j == k then rest else (j, v) ∷ rest

  -- for k, v := range m { if drop(v) { delete(m, k) } }
  unfoldable pub delete_where : (V → Bool) → GoMap K V → GoMap K V
  delete_where drop [] = []
  delete_where drop ((j, v) ∷ m) =
      let rest = delete_where drop m in if drop v then rest else (j, v) ∷ rest

  -- No key stands twice, as in every map that Go can hold.
  abbrev pub Distinct : GoMap K V → Type κ
  Distinct [] = Unit
  Distinct ((k, v) ∷ m) = (lookup k m ≡ none) × Distinct m

  pub lookup-insert :
      (key asked : K) (new : V) (m : GoMap K V)
      → lookup asked (insert key new m) ≡ (if key == asked then some new else lookup asked m)
  unfolding lookup insert
  lookup-insert key asked new [] = refl
  lookup-insert key asked new ((k, old) ∷ rest) =
      let at_key = e.equals_iff k key in
      let at_asked = e.equals_iff k asked in
      ground (arith, at_key, at_asked, e.equals_iff key asked, lookup-insert key asked new rest)

  pub lookup-delete :
      (k j : K) (m : GoMap K V) → lookup j (delete k m) ≡ (if k == j then none else lookup j m)
  unfolding lookup delete
  lookup-delete k j [] = ground arith
  lookup-delete k j ((i, v) ∷ m) =
      ground (arith, lookup-delete k j m, e.equals_iff i k, e.equals_iff i j, e.equals_iff k j)

  pub lookup-delete_where-none :
      (drop : V → Bool) (k : K) (m : GoMap K V)
      → lookup k m ≡ none
      → lookup k (delete_where drop m) ≡ none
  unfolding lookup delete_where
  lookup-delete_where-none drop k [] h = refl
  lookup-delete_where-none drop k ((j, v) ∷ m) h = ground (arith, lookup-delete_where-none drop k m)

  pub lookup-delete_where :
      (drop : V → Bool) (k : K) (m : GoMap K V)
      → Distinct m
      → lookup k (delete_where drop m) ≡ unless drop (lookup k m)
  unfolding lookup delete_where
  lookup-delete_where drop k [] d = refl
  lookup-delete_where drop k ((j, v) ∷ m) d = ground (
    arith,
    lookup-delete_where drop k m d.1,
    lookup-delete_where-none drop j m d.0,
    e.equals_iff j k,
  )

  pub insert-Distinct : (k : K) (v : V) (m : GoMap K V) → Distinct m → Distinct (insert k v m)
  unfolding lookup insert
  insert-Distinct k v [] d = (refl, tt)
  insert-Distinct k v ((j, w) ∷ m) d =
      ground (
        arith,
        e.equals_iff j k,
        e.equals_iff k j,
        lookup-insert k j v m,
        insert-Distinct k v m d.1,
      )

  pub delete-Distinct : (k : K) (m : GoMap K V) → Distinct m → Distinct (delete k m)
  unfolding lookup delete
  delete-Distinct k [] d = tt
  delete-Distinct k ((j, v) ∷ m) d =
      ground (arith, e.equals_iff j k, lookup-delete k j m, delete-Distinct k m d.1)

  pub delete_where-Distinct :
      (drop : V → Bool) (m : GoMap K V) → Distinct m → Distinct (delete_where drop m)
  unfolding delete_where
  delete_where-Distinct drop [] d = tt
  delete_where-Distinct drop ((j, v) ∷ m) d =
      ground (arith, lookup-delete_where-none drop j m d.0, delete_where-Distinct drop m d.1)

  pub length-insert-le : (k : K) (v : V) (m : GoMap K V) → length (insert k v m) ≤ length m + 1
  unfolding insert
  length-insert-le k v [] = omega arith
  length-insert-le k v ((j, w) ∷ m) = ground (arith, length-insert-le k v m)

  pub length-insert_present :
      (k : K) (v w : V) (m : GoMap K V) → lookup k m ≡ some w → length (insert k v m) ≡ length m
  unfolding lookup insert
  length-insert_present k v w [] h = ground arith
  length-insert_present k v w ((j, u) ∷ m) h = ground (arith, length-insert_present k v w m)

  pub length-delete-le : (k : K) (m : GoMap K V) → length (delete k m) ≤ length m
  unfolding delete
  length-delete-le k [] = omega arith
  length-delete-le k ((j, v) ∷ m) = ground (arith, length-delete-le k m)

  pub length-delete_where-le :
      (drop : V → Bool) (m : GoMap K V) → length (delete_where drop m) ≤ length m
  unfolding delete_where
  length-delete_where-le drop [] = omega arith
  length-delete_where-le drop ((j, v) ∷ m) = ground (arith, length-delete_where-le drop m)
