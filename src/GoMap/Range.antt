-- ===== src/GoMap/Range.antt =====
-- The loop of Go over a map. Go leaves its order open; a `Range` is one order for each map, in which
-- every entry stands once.
use Prim.Native.String.{String}
use aura_tracker_gcp.Prelude.{
  none, some, List, [], ◌∷◌, ◌≡◌, refl, sym, ◌∙◌, ap, arith, ◌==◌, string_eq, length, Member, inl,
  inr, ◌↔◌, Bool-cases,
}
use aura_tracker_gcp.GoMap.{GoMap, lookup, Distinct}

pub record Range (V : Type 0) : Type 0 where
  pub entries : GoMap String V → List (String × V)
  pub entry_iff :
      (m : GoMap String V)
      → Distinct m
      → (key : String) (value : V)
      → Member {A = String × V} (key, value) (entries m) ↔ (lookup key m ≡ some value)
  pub once : (m : GoMap String V) → Distinct m → length (entries m) ≡ length m

-- The entries of a map whose keys are distinct are what its keys stand for.
pub Member-lookup_iff :
    {V : Type 0} (m : GoMap String V)
    → Distinct m
    → (key : String) (value : V)
    → Member {A = String × V} (key, value) m ↔ (lookup key m ≡ some value)
unfolding lookup
Member-lookup_iff [] d key value = ((λ m. elim m [ ]), (λ h. ground arith))
Member-lookup_iff {V} ((k, v) ∷ rest) d key value =
    let (to, from) = Member-lookup_iff rest d.1 key value in
    elim (Bool-cases (k == key)) [
      | inl same ↦
          let eq = (string_eq.equals_iff k key).0 same in
          (
            (λ m. elim m [
              | inl is ↦ let w : value ≡ v = ap (λ (e : String × V). e.1) is in ground arith
              | inr later ↦
                  let there = to later in
                  let gone : lookup key rest ≡ none = ap (λ x. lookup x rest) (sym eq) ∙ d.0 in
                  let absurd = sym gone ∙ there in ground arith
            ]),
            (λ h.
                let w : v ≡ value = ground arith in
                inl (ap (λ x. (x, value)) (sym eq) ∙ ap (λ x. (k, x)) (sym w))),
          )
      | inr other ↦ (
        (λ m. elim m [
          | inl is ↦
              let w : key ≡ k = ap (λ (e : String × V). e.0) is in
              ground (arith, string_eq.equals_iff k key)
          | inr later ↦ let there = to later in ground arith
        ]),
        (λ h. inr (from (ground arith))),
      )
    ]

-- The order in which the map's own list has its entries.
abbrev pub as_listed : {V : Type 0} → Range V
as_listed = record {
  entries = λ m. m;
  entry_iff = λ m d key value. Member-lookup_iff m d key value;
  once = λ m d. refl;
}
