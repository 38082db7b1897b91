-- ===== src/GoSort/Keys.antt =====
-- Orders that compare one key after the other.
use aura_tracker_gcp.Prelude.{
  Bool, false, not, ◌≡◌, arith, ◌==◌, Eq, string_eq, nat_eq, if◌then◌else◌, ltb,
}
use aura_tracker_gcp.GoSort.Sorted.{IsOrder}

-- An order in which only equal keys are neither less nor greater.
pub record IsTotal {K : Type 0} (less : K → K → Bool) : Type 0 where
  pub order : IsOrder less
  pub antisym : (x y : K) → less x y ≡ false → less y x ≡ false → x ≡ y

module _ {A K : Type 0} ⦃e : Eq K⦄ where
  -- if key(a) != key(b) { return key(a) < key(b) }; return next(a, b)
  abbrev pub by_key : (A → K) → (K → K → Bool) → (A → A → Bool) → A → A → Bool
  by_key key less next a b = if not (key a == key b) then less (key a) (key b) else next a b

  pub by_key-IsOrder :
      (key : A → K) (less : K → K → Bool) (next : A → A → Bool)
      → IsTotal less
      → IsOrder next
      → IsOrder (by_key key less next)
  by_key-IsOrder key less next t n = record {
    asym = λ a b h. ground (
      arith,
      e.equals_iff (key a) (key b),
      e.equals_iff (key b) (key a),
      t.order.asym (key a) (key b),
      n.asym a b,
    );
    trans = λ a b c h k. ground (
      arith,
      e.equals_iff (key a) (key b),
      e.equals_iff (key b) (key a),
      e.equals_iff (key b) (key c),
      e.equals_iff (key c) (key b),
      e.equals_iff (key a) (key c),
      e.equals_iff (key c) (key a),
      t.order.trans (key a) (key b) (key c),
      t.order.asym (key a) (key b),
      t.order.asym (key b) (key c),
      t.order.asym (key a) (key c),
      t.order.asym (key c) (key a),
      t.antisym (key a) (key c),
      t.antisym (key a) (key b),
      t.antisym (key b) (key c),
      n.trans a b c,
    );
  }

-- The order of one key.
pub on_key-IsOrder :
    {A K : Type 0} (key : A → K) (less : K → K → Bool)
    → IsOrder less
    → IsOrder (λ a b. less (key a) (key b))
on_key-IsOrder key less o = record {
  asym = λ a b h. o.asym (key a) (key b) h;
  trans = λ a b c h k. o.trans (key a) (key b) (key c) h k;
}

pub ltb-IsTotal : IsTotal ltb
ltb-IsTotal = record {
  order = record { asym = λ a b h. ground arith; trans = λ a b c h k. ground arith };
  antisym = λ a b h k. ground arith;
}
