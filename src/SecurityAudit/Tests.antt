-- ===== src/SecurityAudit/Tests.antt =====
-- A small arithmetic for the parameter of the scores, and audits on small projects.
use aura_tracker_gcp.Prelude.{
  if◌then◌else◌, ℕ, zero, suc, ◌+◌, ◌*◌, ◌/◌, ◌^◌, ◌≤◌, String, true, false, none, some, List, [],
  ◌∷◌, ◌++◌, ◌-◌, min, ◌≡◌, ◌↔◌, ◌⊎◌, refl, arith, ◌==◌, string_eq, nat_eq, leb, length, All,
}
use native.Mathlib.Nat.{le-div_iff_mul-le, mul-div-le, mul-div_cancel, mul-le-mul}
use aura_tracker_gcp.SecurityAudit.Suppressions.{Suppression, LibraryOps, apply_suppressions}
use aura_tracker_gcp.SecurityAudit.Suppressions.Split.{Split, apply_suppressions-Split}
use Prim.Native.String.{◌++◌ as append}
use aura_tracker_gcp.Message.{plain}
use aura_tracker_gcp.SecurityAudit.Facts.{SecurityCoverageUnit}
use aura_tracker_gcp.SecurityAudit.Report.{SecurityFinding}
use aura_tracker_gcp.SecurityAudit.Score.{
  severity_cap, ordered_categories, calculate_score, coverage_percent, category_score,
  coverage_factor, category_weight, score_categories, checks_by_category, cap_overall, in_category,
  penalty_quarters, score_of_quarters,
}
use aura_tracker_gcp.SecurityAudit.Score.Caps.{Within, CappedBy, raw_score, score_capped}
use aura_tracker_gcp.SecurityAudit.Score.Penalty.{
  discounted, category_score-discounted, category_score-append-le,
}
use aura_tracker_gcp.SecurityAudit.Checks.{
  CollectedFacts, units_of, warnings_of, category_check, recommendation_check, check_status,
  count_complete, build_coverage,
}
use aura_tracker_gcp.SecurityAudit.Checks.Status.{
  IsComplete, category_check-IsComplete_iff, coverage_percent-build_coverage-le,
}
use aura_tracker_gcp.GoMap.{lookup, insert}
use aura_tracker_gcp.Float.{FloatOps, IsMonotone}

-- Numbers, with a division that rounds down.
abbrev pub whole : FloatOps ℕ
whole = record {
  of_int = λ n. n;
  add = ◌+◌;
  mul = ◌*◌;
  div = ◌/◌;
  is_zero = λ n. n == 0;
  round = λ n. n;
  le = leb;
}

div_mono : (x y z : ℕ) → x ≤ y → x / z ≤ y / z
div_mono x y zero h = omega arith
div_mono x y (suc z) h = (le-div_iff_mul-le (omega arith)).1 (omega (arith, mul-div-le x (suc z)))

mul_mono : (x y u v : ℕ) → x ≤ y → u ≤ v → x * u ≤ y * v
mul_mono x y u v h k = mul-le-mul h k

whole-IsMonotone : IsMonotone whole
whole-IsMonotone = record {
  le_refl = λ x. ground arith;
  le_trans = λ x y z h k. ground arith;
  add_mono = λ x y u v h k. ground arith;
  mul_mono = λ x y u v h k. ground (arith, mul_mono x y u v);
  div_mono = λ x y z h. ground (arith, div_mono x y z);
  round_mono = λ x y h. ground arith;
  of_int_mono = λ m n h. ground arith;
  add_exact = λ m n h. refl;
  mul_exact = λ m n h. refl;
  div_exact = λ m n h k. mul-div_cancel m h;
  round_exact = λ n h. refl;
}

abbrev finding : String → String → SecurityFinding
finding rule severity = record {
  id = "f-1";
  rule_id = rule;
  severity = severity;
  category = "iam";
  title = "A role is too broad";
  resource = "projects/p";
  region = "";
  evidence = plain "roles/owner" ∷ [];
  risk = "takeover";
  recommendation = "narrow the role";
  source = "cloud_asset";
  confidence = "high";
  docs_url = "";
}

abbrev pub two_of_one_rule : List SecurityFinding
two_of_one_rule = finding "IAM-001" "high" ∷ finding "IAM-001" "high" ∷ []

abbrev unit : String → SecurityCoverageUnit
unit status = record {
  collector = "compute";
  scope_type = "region";
  scope = "europe-west1";
  status = status;
  items_scanned = 3;
  message = "";
}

-- The secrets could not be read, and one region of the firewalls was cut short.
abbrev pub half_read : CollectedFacts
half_read = record {
  iam = record {
    hierarchy = record { project_id = "p"; project_number = "1"; organization = ""; nodes = [] };
    policies = [];
    deny_rules = [];
    coverage = unit "complete" ∷ [];
    truncated = false;
  };
  service_accounts = record { service_accounts = [] };
  secrets = record { secrets = []; warnings = [] };
  public_services = record { services = []; coverage = unit "complete" ∷ []; warnings = [] };
  firewalls = record { firewalls = []; coverage = unit "complete" ∷ unit "truncated" ∷ [] };
  workload_identity = record { clusters = []; coverage = []; warnings = [] };
  recommendations = record {
    recommendations = [];
    enabled = true;
    truncated = false;
    warnings = [];
  };
  errors = ("secret_manager", record { message = "permission denied"; quota = none }) ∷ [];
  recommendation_err = none;
}

abbrev pub no_format : ℕ → String
no_format n = ""

half_read_coverage : coverage_percent whole (build_coverage no_format half_read) ≡ 75
unfolding coverage_percent build_coverage category_check recommendation_check check_status units_of
    category_weight coverage_factor ordered_categories lookup warnings_of
half_read_coverage = refl

half_read_score :
    (calculate_score whole two_of_one_rule (build_coverage no_format half_read) 75 false).1
    ≡ some 79
unfolding calculate_score build_coverage category_check recommendation_check check_status units_of
    category_weight coverage_factor ordered_categories score_categories lookup checks_by_category
    insert warnings_of cap_overall category_score in_category count_complete penalty_quarters
    score_of_quarters
half_read_score = refl

category_score-discounted_example :
    category_score two_of_one_rule ≡ 100 - (min 400 (discounted [] two_of_one_rule) + 2) / 4
category_score-discounted_example = category_score-discounted two_of_one_rule

category_score-append-le_example :
    (category_score (two_of_one_rule ++ two_of_one_rule) ≤ category_score two_of_one_rule)
    × (category_score two_of_one_rule ≤ 100)
category_score-append-le_example = category_score-append-le two_of_one_rule two_of_one_rule

category_check-IsComplete_iff_example :
    (category_check half_read "firewall").status ≡ "complete"
    ↔ (lookup "firewall" half_read.errors ≡ none)
      × All IsComplete (units_of half_read "firewall")
      × (warnings_of half_read "firewall" ≡ [])
category_check-IsComplete_iff_example = category_check-IsComplete_iff half_read "firewall"

score_capped_example :
    (79 ≤ raw_score whole two_of_one_rule (build_coverage no_format half_read))
    × All (λ f. Within (severity_cap f.severity) 79) two_of_one_rule
    × ((79 ≡ raw_score whole two_of_one_rule (build_coverage no_format half_read))
        ⊎ CappedBy two_of_one_rule 79)
score_capped_example =
    score_capped whole two_of_one_rule (build_coverage no_format half_read) 75 false 79
      half_read_score

half_read_units : All (λ category. length (units_of half_read category) ≤ 2 ^ 53) ordered_categories
unfolding units_of ordered_categories
half_read_units =
    (omega arith, (omega arith, (omega arith, (omega arith, (omega arith, (omega arith, tt))))))

coverage_percent-build_coverage-le_example :
    coverage_percent whole (build_coverage no_format half_read) ≤ 100
coverage_percent-build_coverage-le_example =
    coverage_percent-build_coverage-le whole whole-IsMonotone no_format half_read half_read_units

-- Patterns without wildcards, and dates that all read as the same instant.
abbrev pub literal : LibraryOps
literal = record {
  trim_space = λ s. s;
  equal_fold = λ s t. s == t;
  replace_all = λ s old new. s;
  quote_meta = λ s. s;
  match_string = λ pattern value. some (pattern == append "^" (append value "$"));
  parse_time = λ layout value. if layout == "2006-01-02" then some 100 else none;
  rfc3339 = λ t. "2030-01-01T00:00:00Z";
}

abbrev accepted : List Suppression
accepted =
    record {
      rule_id = "IAM-001";
      resource = "projects/q";
      reason = "other";
      owner = "ana";
      expires_at = "2030-01-01";
    }
    ∷ record {
      rule_id = "IAM-001";
      resource = "projects/p";
      reason = "known";
      owner = "ana";
      expires_at = "2030-01-01";
    }
    ∷ []

abbrev mixed : List SecurityFinding
mixed = finding "IAM-001" "high" ∷ finding "IAM-002" "low" ∷ []

apply_suppressions-Split_example :
    Split literal 50 accepted mixed
      (apply_suppressions literal mixed accepted 50).0
      (apply_suppressions literal mixed accepted 50).1
apply_suppressions-Split_example = apply_suppressions-Split literal mixed accepted 50
