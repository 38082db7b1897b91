-- ===== src/SecurityAudit/Checks/Status.antt =====
-- What the coverage checks of an audit claim.
use aura_tracker_gcp.Prelude.{
  ℕ, ◌^◌, ◌≤◌, String, Option, none, some, List, [], ◌∷◌, string_eq, length, ◌≡◌, ◌↔◌, refl, arith,
  All,
}
use aura_tracker_gcp.GoMap.{lookup}
use aura_tracker_gcp.Float.{FloatOps, IsMonotone}
use aura_tracker_gcp.SecurityAudit.Facts.{SecurityCoverageUnit}
use aura_tracker_gcp.SecurityAudit.Score.{ordered_categories, category_weight, coverage_percent}
use aura_tracker_gcp.SecurityAudit.Score.Coverage.{IsCounted, coverage_percent-le}
use aura_tracker_gcp.SecurityAudit.Checks.{
  CollectorError, CollectedFacts, units_of, warnings_of, count_complete, check_status,
  category_check, recommendation_check, build_coverage,
}

count_complete-le : (units : List SecurityCoverageUnit) → count_complete units ≤ length units
unfolding count_complete
count_complete-le [] = omega arith
count_complete-le (unit ∷ rest) = ground (arith, count_complete-le rest)

abbrev pub IsComplete : SecurityCoverageUnit → Type 0
IsComplete unit = unit.status ≡ "complete"

All-IsComplete :
    (units : List SecurityCoverageUnit) → length units ≤ count_complete units → All IsComplete units
unfolding count_complete
All-IsComplete [] h = tt
All-IsComplete (unit ∷ rest) h = (
  ground (arith, count_complete-le rest, string_eq.equals_iff unit.status "complete"),
  All-IsComplete rest (ground (arith, count_complete-le rest)),
)

complete_counts :
    (units : List SecurityCoverageUnit) → All IsComplete units → count_complete units ≡ length units
unfolding count_complete
complete_counts [] h = refl
complete_counts (unit ∷ rest) h =
    ground (arith, complete_counts rest h.1, string_eq.equals_iff unit.status "complete")

status_complete :
    (err : Option CollectorError) (units : List SecurityCoverageUnit) (warnings : List String)
    → (check_status err units warnings).0 ≡ "complete"
    → (err ≡ none) × (length units ≤ count_complete units) × (warnings ≡ [])
unfolding check_status
status_complete (some err) units warnings h =
    ground (arith, string_eq.equals_iff "error" "complete")
status_complete none units [] h = ground (arith, string_eq.equals_iff "partial" "complete")
status_complete none units (warning ∷ warnings) h =
    ground (arith, string_eq.equals_iff "partial" "complete")

complete_status :
    (units : List SecurityCoverageUnit)
    → length units ≤ count_complete units
    → (check_status none units []).0 ≡ "complete"
unfolding check_status
complete_status units h = ground arith

-- A category's check has the status "complete" exactly when its collector failed with no error,
-- every unit of it has the status "complete", and it has no warning.
pub category_check-IsComplete_iff :
    (facts : CollectedFacts) (category : String)
    → (category_check facts category).status ≡ "complete"
      ↔ (lookup category facts.errors ≡ none)
        × All IsComplete (units_of facts category)
        × (warnings_of facts category ≡ [])
unfolding category_check
category_check-IsComplete_iff facts category =
    let units = units_of facts category in
    (
      λ h.
          let (ok, counted, quiet) =
            status_complete (lookup category facts.errors) units (warnings_of facts category) h in
          (ok, All-IsComplete units counted, quiet),
      λ h.
          let counted : length units ≤ count_complete units =
            omega (arith, complete_counts units h.1) in
          rw h.0 (rw h.2 (complete_status units counted)),
    )

-- Every check that an audit builds counts its complete units among its units.
category_check-IsCounted :
    (facts : CollectedFacts) (category : String)
    → length (units_of facts category) ≤ 2 ^ 53
    → IsCounted (category_check facts category)
unfolding category_check category_weight
category_check-IsCounted facts category h = record {
  units_fit = count_complete-le (units_of facts category);
  units_small = h;
  weight_small = ground arith;
}

module _ {F : Type 0} (o : FloatOps F) (laws : IsMonotone o) (rfc3339 : ℕ → String) where
  -- The coverage that an audit reports is at most 100 percent, whatever its collectors brought, as
  -- long as no category has more than 2^53 units.
  pub coverage_percent-build_coverage-le :
      (facts : CollectedFacts)
      → All (λ category. length (units_of facts category) ≤ 2 ^ 53) ordered_categories
      → coverage_percent o (build_coverage rfc3339 facts) ≤ 100
  unfolding build_coverage ordered_categories recommendation_check category_check category_weight
  coverage_percent-build_coverage-le facts h =
      let one = category_check-IsCounted facts in
      coverage_percent-le o laws (build_coverage rfc3339 facts)
        (
          one "iam" h.0,
          (
            one "service_accounts" h.1.0,
            (
              one "public_services" h.1.1.0,
              (
                one "firewall" h.1.1.1.0,
                (
                  one "secret_manager" h.1.1.1.1.0,
                  (
                    one "workload_identity" h.1.1.1.1.1.0,
                    (
                      record {
                        units_fit = omega arith;
                        units_small = omega arith;
                        weight_small = omega arith;
                      },
                      tt,
                    ),
                  ),
                ),
              ),
            ),
          ),
        )
        (omega arith)
