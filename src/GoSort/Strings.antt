-- ===== src/GoSort/Strings.antt =====
-- The byte order of Go's strings is the order of the native texts: total, and what `sort` asks of `less`.
use Prim.Native.Nat.{Ordering, compare as compare_ℕ}
use Prim.Native.Char.{Char, code}
use Prim.Native.String.compare
use Prim.Native.String.{String, compare, then as lexicographic}
use text.Mathlib.TextEquality.{codes_equal}
use aura_tracker_gcp.Prelude.{true, false, ◌≡◌, refl, arith, string_eq, nat_eq}
use aura_tracker_gcp.GoSort.{string_lt}
use aura_tracker_gcp.GoSort.Sorted.{IsOrder}
use aura_tracker_gcp.GoSort.Keys.{IsTotal}

cons_cons :
    (c d : Char) (s t : String)
    → compare (String.◌∷◌ c s) (String.◌∷◌ d t)
      ≡ lexicographic (compare_ℕ (code c) (code d)) (compare s t)
cons_cons c d s t = compare.cons-cons c d s t

nil_cons : (d : Char) (t : String) → compare String.[] (String.◌∷◌ d t) ≡ Ordering.lt
nil_cons d t = compare.nil-cons d t

cons_nil : (c : Char) (s : String) → compare (String.◌∷◌ c s) String.[] ≡ Ordering.gt
cons_nil c s = compare.cons-nil c s

nil_nil : compare String.[] String.[] ≡ Ordering.eq
nil_nil = compare.nil-nil

string_lt-asym : (s t : String) → string_lt s t ≡ true → string_lt t s ≡ false
string_lt-asym String.[] String.[] h = ground (arith, nil_nil)
string_lt-asym String.[] (String.◌∷◌ d t) h = ground (arith, cons_nil d t)
string_lt-asym (String.◌∷◌ c s) String.[] h = ground (arith, cons_nil c s)
string_lt-asym (String.◌∷◌ c s) (String.◌∷◌ d t) h =
    ground (arith, cons_cons c d s t, cons_cons d c t s, string_lt-asym s t)

-- What is not less, in a chain.
string_lt_trans :
    (x y z : String) → string_lt y x ≡ false → string_lt z y ≡ false → string_lt z x ≡ false
string_lt_trans String.[] String.[] String.[] h k = ground (arith, nil_nil)
string_lt_trans String.[] String.[] (String.◌∷◌ d t) h k = ground (arith, cons_nil d t)
string_lt_trans String.[] (String.◌∷◌ c s) String.[] h k = ground (arith, nil_nil)
string_lt_trans String.[] (String.◌∷◌ c s) (String.◌∷◌ d t) h k = ground (arith, cons_nil d t)
string_lt_trans (String.◌∷◌ b r) String.[] z h k = ground (arith, nil_cons b r)
string_lt_trans (String.◌∷◌ b r) (String.◌∷◌ c s) String.[] h k = ground (arith, nil_cons c s)
string_lt_trans (String.◌∷◌ b r) (String.◌∷◌ c s) (String.◌∷◌ d t) h k =
    ground (arith, cons_cons c b s r, cons_cons d c t s, cons_cons d b t r, string_lt_trans r s t)

-- Texts that are not less, either way, are equal.
pub string_lt-antisym : (s t : String) → string_lt s t ≡ false → string_lt t s ≡ false → s ≡ t
string_lt-antisym String.[] String.[] h k = refl
string_lt-antisym String.[] (String.◌∷◌ d t) h k = ground (arith, nil_cons d t)
string_lt-antisym (String.◌∷◌ c s) String.[] h k = ground (arith, nil_cons c s)
string_lt-antisym (String.◌∷◌ c s) (String.◌∷◌ d t) h k =
    ground (arith, cons_cons c d s t, cons_cons d c t s, string_lt-antisym s t, codes_equal c d)

string_lt-IsOrder : IsOrder string_lt
string_lt-IsOrder = record { asym = string_lt-asym; trans = string_lt_trans }

pub string_lt-IsTotal : IsTotal string_lt
string_lt-IsTotal = record { order = string_lt-IsOrder; antisym = string_lt-antisym }
