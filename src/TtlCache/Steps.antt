-- ===== src/TtlCache/Steps.antt =====
-- The steps that change a TTL cache, each under its write lock, and histories of them.
use aura_tracker_gcp.Prelude.{
  ℕ, String, Bool, false, List, [], ◌∷◌, ◌++◌, ◌==◌, string_eq, ◌≡◌, refl, ap,
}
use aura_tracker_gcp.TtlCache.{TtlCache, set, reread}

pub data Step (V : Type 0) : Type 0 where
  sets : (key : String) (v : V) (now : ℕ) → Step V
  rereads : (key : String) (now : ℕ) → Step V

module _ {V : Type 0} where
  unfoldable pub step : TtlCache V → Step V → TtlCache V
  step c (sets key v now) = set key v now c
  step c (rereads key now) = (reread key now c).1

  -- The cache after further steps, the latest first.
  unfoldable pub after_steps : TtlCache V → List (Step V) → TtlCache V
  after_steps c [] = c
  after_steps c (s ∷ history) = step (after_steps c history) s

  pub after_steps-append :
      (c : TtlCache V) (later earlier : List (Step V))
      → after_steps (after_steps c earlier) later ≡ after_steps c (later ++ earlier)
  unfolding after_steps
  after_steps-append c [] earlier = refl
  after_steps-append c (s ∷ later) earlier = ap (λ d. step d s) (after_steps-append c later earlier)

  unfoldable pub overwrites : String → Step V → Bool
  overwrites key (sets j v now) = j == key
  overwrites key (rereads j now) = false
