-- ===== src/SecurityAudit/Suppressions/Split.antt =====
-- What suppressions do to the findings of an audit.
use aura_tracker_gcp.Prelude.{
  ℕ, ◌<◌, true, none, some, List, [], ◌∷◌, ◌++◌, ◌≡◌, refl, ◌∙◌, ap, ◌⊎◌, ◌&&◌, arith, ltb,
  Option-cases, Bool-cases, inl, inr, All,
}
use aura_tracker_gcp.SecurityAudit.Report.{SecurityFinding, SecuritySuppressedFinding}
use aura_tracker_gcp.SecurityAudit.Suppressions.{
  Suppression, LibraryOps, parse_suppression_expiry, wildcard_match, suppressed_finding,
  first_match, apply_suppressions,
}

module _ (library : LibraryOps) where
  open library use {trim_space, equal_fold}

  -- The suppression covers the finding at the time: it ends later, at `expires`, its rule is the
  -- finding's up to case, and its pattern matches the finding's resource.
  abbrev pub Covers : ℕ → SecurityFinding → Suppression → ℕ → Type 0
  Covers now finding suppression expires =
      (parse_suppression_expiry library suppression.expires_at ≡ some expires)
      × (now < expires)
      × (equal_fold (trim_space suppression.rule_id) finding.rule_id ≡ true)
      × (wildcard_match library (trim_space suppression.resource) finding.resource ≡ true)

  abbrev pub IsUncovered : ℕ → SecurityFinding → Suppression → Type 0
  IsUncovered now finding suppression = (expires : ℕ) → Covers now finding suppression expires → ⊥

  -- The findings, in order, each active if no suppression covers it, and otherwise suppressed by the
  -- first that does.
  pub data Split (now : ℕ) (suppressions : List Suppression)
      : List SecurityFinding → List SecurityFinding → List SecuritySuppressedFinding → Type 0 where
    done : Split now suppressions [] [] []
    stays :
        (finding : SecurityFinding) (findings active : List SecurityFinding)
        (hidden : List SecuritySuppressedFinding)
        → All (IsUncovered now finding) suppressions
        → Split now suppressions findings active hidden
        → Split now suppressions (finding ∷ findings) (finding ∷ active) hidden
    hides :
        (finding : SecurityFinding) (findings active : List SecurityFinding)
        (hidden : List SecuritySuppressedFinding) (earlier later : List Suppression)
        (suppression : Suppression) (expires : ℕ)
        → suppressions ≡ earlier ++ suppression ∷ later
        → All (IsUncovered now finding) earlier
        → Covers now finding suppression expires
        → Split now suppressions findings active hidden
        → Split now suppressions
            (finding ∷ findings)
            active
            (suppressed_finding library finding suppression expires ∷ hidden)

  cover_cases :
      (now : ℕ) (finding : SecurityFinding) (suppression : Suppression) (rest : List Suppression)
      → ((expires : ℕ) × Covers now finding suppression expires
          × (first_match library now finding (suppression ∷ rest)
              ≡ some (suppressed_finding library finding suppression expires)))
        ⊎ (IsUncovered now finding suppression
            × (first_match library now finding (suppression ∷ rest)
                ≡ first_match library now finding rest))
  unfolding first_match
  cover_cases now finding suppression rest =
      let same_rule = equal_fold (trim_space suppression.rule_id) finding.rule_id in
      let matched = wildcard_match library (trim_space suppression.resource) finding.resource in
      elim (Option-cases (parse_suppression_expiry library suppression.expires_at)) [
        | inl unread ↦ inr ((λ expires c. ground arith), ground arith)
        | inr (expires, read) ↦ elim (Bool-cases (ltb now expires && same_rule && matched)) [
          | inl covered ↦
              inl (expires, (read, ground arith, ground arith, ground arith), ground arith)
          | inr not_covered ↦ inr ((λ e c. ground arith), ground arith)
        ]
      ]

  -- Where a list has a covering suppression, the first one is found.
  first_match_cases :
      (now : ℕ) (finding : SecurityFinding) (suppressions : List Suppression)
      → (All (IsUncovered now finding) suppressions
          × (first_match library now finding suppressions ≡ none))
        ⊎ ((earlier later : List Suppression) × (suppression : Suppression) × (expires : ℕ)
            × (suppressions ≡ earlier ++ suppression ∷ later)
            × All (IsUncovered now finding) earlier
            × Covers now finding suppression expires
            × (first_match library now finding suppressions
                ≡ some (suppressed_finding library finding suppression expires)))
  first_match_cases now finding [] = inl (tt, unfold first_match in refl)
  first_match_cases now finding (suppression ∷ rest) =
      elim (cover_cases now finding suppression rest) [
        | inl (expires, covers, hit) ↦ inr ([], rest, suppression, expires, refl, tt, covers, hit)
        | inr (uncovered, next) ↦ elim (first_match_cases now finding rest) [
          | inl (others, none_found) ↦ inl ((uncovered, others), next ∙ none_found)
          | inr (earlier, later, found, expires, split, before, covers, hit) ↦ inr (
            suppression ∷ earlier,
            later,
            found,
            expires,
            ap (λ xs. suppression ∷ xs) split,
            (uncovered, before),
            covers,
            next ∙ hit,
          )
        ]
      ]

  -- Every finding of an audit is active if no suppression covers it at the audit's time, and is
  -- otherwise suppressed, by the first suppression that covers it; both lists keep the order.
  pub apply_suppressions-Split :
      (findings : List SecurityFinding) (suppressions : List Suppression) (now : ℕ)
      → Split now suppressions findings
          (apply_suppressions library findings suppressions now).0
          (apply_suppressions library findings suppressions now).1
  unfolding apply_suppressions
  apply_suppressions-Split [] suppressions now = done
  apply_suppressions-Split (finding ∷ findings) suppressions now =
      let (active, hidden) = apply_suppressions library findings suppressions now in
      let rest = apply_suppressions-Split findings suppressions now in
      elim (first_match_cases now finding suppressions) [
        | inl (uncovered, none_found) ↦
            rw (none_found, apply_suppressions)
              (stays finding findings active hidden uncovered rest)
        | inr (earlier, later, found, expires, split, before, covers, hit) ↦
            rw (hit, apply_suppressions)
              (hides finding findings active hidden earlier later found expires split before covers
                rest)
      ]
