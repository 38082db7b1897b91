-- ===== src/Message.antt =====
-- Text that the code formats, kept as the list of the parts it is formatted from: a literal, a text
-- under %q, a number under %d, a duration in nanoseconds under %s. Go's `int32` and
-- `time.Duration` are integers.
use aura_tracker_gcp.Prelude.{ℕ, ◌-◌, String, List, [], ◌∷◌, leb, if◌then◌else◌}

-- `negsuc n` is -(n + 1).
pub data ℤ : Type 0 where
  pos : ℕ → ℤ
  negsuc : ℕ → ℤ

-- a - b, as an integer.
abbrev pub sub_ℕ : ℕ → ℕ → ℤ
sub_ℕ a b = if leb b a then pos (a - b) else negsuc (b - a - 1)

pub data Part : Type 0 where
  text : String → Part
  quoted : String → Part
  decimal : ℤ → Part
  duration : ℤ → Part

abbrev pub Message : Type 0
Message = List Part

abbrev pub plain : String → Message
plain s = text s ∷ []
