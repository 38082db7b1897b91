-- ===== src/GoSort/Sorted.antt =====
-- What `slice_stable` does: the same elements, in order.
use aura_tracker_gcp.Prelude.{
  suc, Bool, true, false, List, [], ◌∷◌, ◌≡◌, refl, arith, All, Member, length, inl, inr,
  Bool-cases, ◌↔◌,
}
use aura_tracker_gcp.GoSort.{sort_in, slice_stable}

-- A strict weak order, as Go asks of `less`.
pub record IsOrder {A : Type 0} (less : A → A → Bool) : Type 0 where
  pub asym : (x y : A) → less x y ≡ true → less y x ≡ false
  -- what is not less does not become less
  pub trans : (x y z : A) → less y x ≡ false → less z y ≡ false → less z x ≡ false

module _ {A : Type 0} (less : A → A → Bool) where
  -- No later element is less than an earlier one.
  abbrev pub IsSorted : List A → Type 0
  IsSorted [] = Unit
  IsSorted (x ∷ xs) = All (λ y. less y x ≡ false) xs × IsSorted xs

  pub sort_in-Member : (x y : A) (ys : List A) → Member y (sort_in less x ys) ↔ Member y (x ∷ ys)
  unfolding sort_in
  sort_in-Member x y [] = ((λ m. m), (λ m. m))
  sort_in-Member x y (z ∷ zs) = elim (Bool-cases (less z x)) [
    | inl below ↦ rw below (
      (λ m. elim m [
        | inl e ↦ inr (inl e)
        | inr k ↦ elim ((sort_in-Member x y zs).0 k) [ inl e ↦ inl e | inr l ↦ inr (inr l) ]
      ]),
      (λ m. elim m [
        | inl e ↦ inr ((sort_in-Member x y zs).1 (inl e))
        | inr (inl e) ↦ inl e
        | inr (inr l) ↦ inr ((sort_in-Member x y zs).1 (inr l))
      ]),
    )
    | inr above ↦ rw above ((λ m. m), (λ m. m))
  ]

  pub slice_stable-Member : (y : A) (xs : List A) → Member y (slice_stable less xs) ↔ Member y xs
  unfolding slice_stable
  slice_stable-Member y [] = ((λ m. m), (λ m. m))
  slice_stable-Member y (x ∷ xs) = (
    (λ m. elim ((sort_in-Member x y (slice_stable less xs)).0 m) [
      | inl e ↦ inl e
      | inr k ↦ inr ((slice_stable-Member y xs).0 k)
    ]),
    (λ m.
        (sort_in-Member x y (slice_stable less xs)).1
          (elim m [ inl e ↦ inl e | inr k ↦ inr ((slice_stable-Member y xs).1 k) ])),
  )

  pub sort_in-length : (x : A) (ys : List A) → length (sort_in less x ys) ≡ suc (length ys)
  unfolding sort_in
  sort_in-length x [] = refl
  sort_in-length x (y ∷ ys) = ground (arith, sort_in-length x ys)

  pub slice_stable-length : (xs : List A) → length (slice_stable less xs) ≡ length xs
  unfolding slice_stable
  slice_stable-length [] = refl
  slice_stable-length (x ∷ xs) =
      ground (arith, sort_in-length x (slice_stable less xs), slice_stable-length xs)

  pub sort_in-All :
      (P : A → Type 0) (x : A) (ys : List A) → P x → All P ys → All P (sort_in less x ys)
  unfolding sort_in
  sort_in-All P x [] p ps = (p, tt)
  sort_in-All P x (y ∷ ys) p ps = elim (Bool-cases (less y x)) [
    | inl below ↦ rw below (ps.0, sort_in-All P x ys p ps.1)
    | inr above ↦ rw above (p, ps)
  ]

  All-below :
      (o : IsOrder less) (x y : A) (ys : List A)
      → less y x ≡ false
      → All (λ z. less z y ≡ false) ys
      → All (λ z. less z x ≡ false) ys
  All-below o x y [] h ps = tt
  All-below o x y (z ∷ ys) h ps = (o.trans x y z h ps.0, All-below o x y ys h ps.1)

  sort_in-IsSorted :
      (o : IsOrder less) (x : A) (ys : List A) → IsSorted ys → IsSorted (sort_in less x ys)
  unfolding sort_in
  sort_in-IsSorted o x [] s = (tt, tt)
  sort_in-IsSorted o x (y ∷ ys) s = elim (Bool-cases (less y x)) [
    | inl below ↦ rw below (
      sort_in-All (λ z. less z y ≡ false) x ys (o.asym y x below) s.0,
      sort_in-IsSorted o x ys s.1,
    )
    | inr above ↦ rw above ((above, All-below o x y ys above s.0), s)
  ]

  pub slice_stable-IsSorted : IsOrder less → (xs : List A) → IsSorted (slice_stable less xs)
  unfolding slice_stable
  slice_stable-IsSorted o [] = tt
  slice_stable-IsSorted o (x ∷ xs) =
      sort_in-IsSorted o x (slice_stable less xs) (slice_stable-IsSorted o xs)
