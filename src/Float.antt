-- ===== src/Float.antt =====
-- Go's float64, which the language here lacks: its operations on the non-negative finite values that
-- the program computes with, as a parameter, and the laws of IEEE 754 arithmetic that theorems use.
use aura_tracker_gcp.Prelude.{ℕ, ◌*◌, ◌+◌, ◌^◌, ◌<◌, ◌≤◌, Bool, true, ◌≡◌}

pub record FloatOps (F : Type 0) : Type 0 where
  pub of_int : ℕ → F
  pub add : F → F → F
  pub mul : F → F → F
  pub div : F → F → F
  pub is_zero : F → Bool
  -- int(math.Round(x))
  pub round : F → ℕ
  -- x <= y
  pub le : F → F → Bool

-- Rounding to the nearest float is monotone, and exact on the small integers: below 2^53.
pub record IsMonotone {F : Type 0} (o : FloatOps F) : Type 0 where
  pub le_refl : (x : F) → o.le x x ≡ true
  pub le_trans : (x y z : F) → o.le x y ≡ true → o.le y z ≡ true → o.le x z ≡ true
  pub add_mono :
      (x y u v : F) → o.le x y ≡ true → o.le u v ≡ true → o.le (o.add x u) (o.add y v) ≡ true
  pub mul_mono :
      (x y u v : F) → o.le x y ≡ true → o.le u v ≡ true → o.le (o.mul x u) (o.mul y v) ≡ true
  pub div_mono : (x y z : F) → o.le x y ≡ true → o.le (o.div x z) (o.div y z) ≡ true
  pub round_mono : (x y : F) → o.le x y ≡ true → o.round x ≤ o.round y
  pub of_int_mono : (m n : ℕ) → m ≤ n → o.le (o.of_int m) (o.of_int n) ≡ true
  pub add_exact : (m n : ℕ) → m + n ≤ 2 ^ 53 → o.add (o.of_int m) (o.of_int n) ≡ o.of_int (m + n)
  pub mul_exact : (m n : ℕ) → m * n ≤ 2 ^ 53 → o.mul (o.of_int m) (o.of_int n) ≡ o.of_int (m * n)
  pub div_exact :
      (m n : ℕ) → 0 < n → m * n ≤ 2 ^ 53 → o.div (o.of_int (m * n)) (o.of_int n) ≡ o.of_int m
  pub round_exact : (n : ℕ) → n ≤ 2 ^ 53 → o.round (o.of_int n) ≡ n
