-- ===== src/SecurityAudit/Score/Coverage.antt =====
-- The coverage percentage, over a float arithmetic that rounds monotonically.
use aura_tracker_gcp.Prelude.{
  ℕ, ◌+◌, ◌*◌, ◌^◌, ◌≤◌, ◌<◌, true, List, [], ◌∷◌, ◌≡◌, ap, subst, ◌∙◌, arith, nat_eq, string_eq,
  All,
}
use aura_tracker_gcp.Float.{FloatOps, IsMonotone}
use aura_tracker_gcp.SecurityAudit.Report.{SecurityCoverageCheck}
use aura_tracker_gcp.SecurityAudit.Score.{coverage_factor, add_coverage, coverage_percent}

-- A check counts no more units as complete than it has, and its weight is small.
pub record IsCounted (check : SecurityCoverageCheck) : Type 0 where
  pub units_fit : check.completed_units ≤ check.total_units
  pub units_small : check.total_units ≤ 2 ^ 53
  pub weight_small : check.weight ≤ 100

abbrev pub total_weight : List SecurityCoverageCheck → ℕ
total_weight [] = 0
total_weight (check ∷ rest) = check.weight + total_weight rest

module _ {F : Type 0} (o : FloatOps F) (laws : IsMonotone o) where
  open o use {of_int, add, mul, div, round, le}

  ratio-le :
      (m n : ℕ) → m ≤ n → 0 < n → n ≤ 2 ^ 53 → le (div (of_int m) (of_int n)) (of_int 1) ≡ true
  ratio-le m n h pos small =
      let one : n ≡ 1 * n = omega arith in
      let whole : div (of_int n) (of_int n) ≡ of_int 1 =
        ap (λ k. div (of_int k) (of_int n)) one ∙ laws.div_exact 1 n pos (omega arith) in
      subst (λ x. le (div (of_int m) (of_int n)) x ≡ true) whole
        (laws.div_mono (of_int m) (of_int n) (of_int n) (laws.of_int_mono m n h))

  coverage_factor-le-one :
      (check : SecurityCoverageCheck)
      → IsCounted check
      → le (coverage_factor o check) (of_int 1) ≡ true
  unfolding coverage_factor
  coverage_factor-le-one check c =
      let fits = c.units_fit in
      let small = c.units_small in
      ground (
        arith,
        laws.le_refl (of_int 1),
        ratio-le check.completed_units check.total_units,
        ratio-le 3 4,
        laws.of_int_mono 0 1,
      )

  -- The loop keeps what is covered within the total.
  add_coverage-le :
      (covered : F) (total : ℕ) (checks : List SecurityCoverageCheck)
      → le covered (of_int total) ≡ true
      → All IsCounted checks
      → total + total_weight checks ≤ 2 ^ 40
      → (le (add_coverage o covered total checks).0 (of_int (total + total_weight checks)) ≡ true)
        × ((add_coverage o covered total checks).1 ≡ total + total_weight checks)
  unfolding add_coverage
  add_coverage-le covered total [] h c small =
      (subst (λ k. le covered (of_int k) ≡ true) (omega arith) h, omega arith)
  add_coverage-le covered total (check ∷ rest) h c small =
      let w = check.weight in
      let factor = coverage_factor o check in
      let part : le (mul (of_int w) factor) (of_int w) ≡ true =
        subst (λ x. le (mul (of_int w) factor) x ≡ true)
          (laws.mul_exact w 1 (omega (arith, c.0.weight_small)) ∙ ap of_int (omega arith))
          (laws.mul_mono (of_int w) (of_int w) factor (of_int 1) (laws.le_refl (of_int w))
            (coverage_factor-le-one check c.0)) in
      let grown : le (add covered (mul (of_int w) factor)) (of_int (total + w)) ≡ true =
        subst (λ x. le (add covered (mul (of_int w) factor)) x ≡ true)
          (laws.add_exact total w (omega arith))
          (laws.add_mono covered (of_int total) (mul (of_int w) factor) (of_int w) h part) in
      let (bound, sum) =
        add_coverage-le (add covered (mul (of_int w) factor)) (total + w) rest grown c.1
          (omega arith) in
      let regroup : total + w + total_weight rest ≡ total + (w + total_weight rest) = omega arith in
      (
        subst
            (λ k.
              le (add_coverage o (add covered (mul (of_int w) factor)) (total + w) rest).0
                (of_int k)
              ≡ true)
            regroup bound,
        sum ∙ regroup,
      )

  percent-le :
      (covered : F) (total : ℕ)
      → le covered (of_int total) ≡ true
      → 0 < total
      → total ≤ 2 ^ 40
      → round (div (mul covered (of_int 100)) (of_int total)) ≤ 100
  percent-le covered total h pos small =
      let hundred : mul (of_int total) (of_int 100) ≡ of_int (100 * total) =
        laws.mul_exact total 100 (omega arith) ∙ ap of_int (omega arith) in
      let scaled : le (mul covered (of_int 100)) (of_int (100 * total)) ≡ true =
        subst (λ x. le (mul covered (of_int 100)) x ≡ true) hundred
          (laws.mul_mono covered (of_int total) (of_int 100) (of_int 100) h
            (laws.le_refl (of_int 100))) in
      let divided : le (div (mul covered (of_int 100)) (of_int total)) (of_int 100) ≡ true =
        subst (λ x. le (div (mul covered (of_int 100)) (of_int total)) x ≡ true)
          (laws.div_exact 100 total pos (omega arith))
          (laws.div_mono (mul covered (of_int 100)) (of_int (100 * total)) (of_int total) scaled) in
      omega (
        arith,
        laws.round_mono (div (mul covered (of_int 100)) (of_int total)) (of_int 100) divided,
        laws.round_exact 100 (omega arith),
      )

  -- The coverage of an audit never passes 100 percent, if no check counts more units as complete
  -- than it has, weights are at most 100 and their sum at most 2^40, units at most 2^53.
  pub coverage_percent-le :
      (checks : List SecurityCoverageCheck)
      → All IsCounted checks
      → total_weight checks ≤ 2 ^ 40
      → coverage_percent o checks ≤ 100
  unfolding coverage_percent
  coverage_percent-le checks c small =
      let total = total_weight checks in
      let (bound, sum) =
        add_coverage-le (of_int 0) 0 checks (laws.le_refl (of_int 0)) c (omega arith) in
      let covered = (add_coverage o (of_int 0) 0 checks).0 in
      let sum' : (add_coverage o (of_int 0) 0 checks).1 ≡ total = omega (arith, sum) in
      ground (
        arith,
        sum',
        percent-le covered total (subst (λ k. le covered (of_int k) ≡ true) (omega arith) bound),
      )
