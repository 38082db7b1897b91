-- ===== src/Prelude/Members.antt =====
-- Membership of a list, as the position where the element stands.
use mathlib.Core.Path.{◌≡◌, refl, subst}
use mathlib.Core.Logic.{◌⊎◌, inl, inr}
use mathlib.Core.List.{List, [], ◌∷◌, ◌++◌}
use aura_tracker_gcp.Prelude.Lists.{flat_map}

module _ {A : Type 0} where
  abbrev pub Member : A → List A → Type 0
  Member x [] = ⊥
  Member x (y ∷ ys) = (x ≡ y) ⊎ Member x ys

  pub Member-append_left : (x : A) (xs ys : List A) → Member x xs → Member x (xs ++ ys)
  Member-append_left x [] ys m = elim m [ ]
  Member-append_left x (y ∷ xs) ys (inl e) = inl e
  Member-append_left x (y ∷ xs) ys (inr m) = inr (Member-append_left x xs ys m)

  pub Member-append_right : (x : A) (xs ys : List A) → Member x ys → Member x (xs ++ ys)
  Member-append_right x [] ys m = m
  Member-append_right x (y ∷ xs) ys m = inr (Member-append_right x xs ys m)

  pub Member-append : (x : A) (xs ys : List A) → Member x (xs ++ ys) → Member x xs ⊎ Member x ys
  Member-append x [] ys m = inr m
  Member-append x (y ∷ xs) ys (inl e) = inl (inl e)
  Member-append x (y ∷ xs) ys (inr m) = elim (Member-append x xs ys m) [
    | inl a ↦ inl (inr a)
    | inr b ↦ inr b
  ]

-- What a loop appends comes from one of its elements.
pub flat_map-Member :
    {A B : Type 0} (f : A → List B) (xs : List A) (y : B)
    → Member y (flat_map f xs)
    → (x : A) × Member x xs × Member y (f x)
flat_map-Member f [] y m = elim m [ ]
flat_map-Member f (x ∷ xs) y m = elim (Member-append y (f x) (flat_map f xs) m) [
  | inl here ↦ (x, inl refl, here)
  | inr later ↦ let (z, there, from) = flat_map-Member f xs y later in (z, inr there, from)
]

pub Member-flat_map :
    {A B : Type 0} (f : A → List B) (xs : List A) (x : A) (y : B)
    → Member x xs
    → Member y (f x)
    → Member y (flat_map f xs)
Member-flat_map f [] x y m k = elim m [ ]
Member-flat_map f (z ∷ xs) x y (inl same) k =
    Member-append_left y (f z) (flat_map f xs) (subst (λ w. Member y (f w)) same k)
Member-flat_map f (z ∷ xs) x y (inr m) k =
    Member-append_right y (f z) (flat_map f xs) (Member-flat_map f xs x y m k)
