-- ===== src/GoSort.antt =====
-- `sort.SliceStable`, as the insertion of each element before the later ones that are not less. A
-- stable sort by a strict weak order has one result, so the algorithm does not matter; `sort.Strings`
-- and `sort.Ints` are the case in which elements that compare equal are equal.
pub mod Sorted
pub mod Keys
pub mod Strings
use Prim.Native.String.{String, compare as compare_string}
use aura_tracker_gcp.Prelude.{ℕ, Bool, List, [], ◌∷◌, if◌then◌else◌, ltb}
use text.Mathlib.Text.{is_lt}

module _ {ℓ} {A : Type ℓ} (less : A → A → Bool) where
  unfoldable pub sort_in : A → List A → List A
  sort_in x [] = x ∷ []
  sort_in x (y ∷ ys) = let rest = sort_in x ys in if less y x then y ∷ rest else x ∷ y ∷ ys

  unfoldable pub slice_stable : List A → List A
  slice_stable [] = []
  slice_stable (x ∷ xs) = sort_in x (slice_stable xs)

-- s < t on Go's strings
abbrev pub string_lt : String → String → Bool
string_lt s t = is_lt (compare_string s t)

abbrev pub sort_strings : List String → List String
sort_strings = slice_stable string_lt
