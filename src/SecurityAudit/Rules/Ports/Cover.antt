-- ===== src/SecurityAudit/Rules/Ports/Cover.antt =====
-- What a cover of port ranges means for the ports themselves.
use Prim.Native.String.{String}
use aura_tracker_gcp.Prelude.{
  true, Option, none, some, List, [], ◌∷◌, ◌≡◌, refl, arith, string_eq, nat_eq, inl, inr,
  Option-cases,
}
use aura_tracker_gcp.Message.{ℤ, pos, negsuc}
use aura_tracker_gcp.GoText.{le_ℤ}
use aura_tracker_gcp.SecurityAudit.Rules.Ports.{
  parse_port_range, within, any_within, ports_contain, inside, any_covers, all_covered,
  port_ranges_cover,
}

le_trans_ℤ : (a b c : ℤ) → le_ℤ a b ≡ true → le_ℤ b c ≡ true → le_ℤ a c ≡ true
le_trans_ℤ (pos a) (pos b) (pos c) h k = ground arith
le_trans_ℤ (pos a) (pos b) (negsuc c) h k = ground arith
le_trans_ℤ (pos a) (negsuc b) c h k = ground arith
le_trans_ℤ (negsuc a) (pos b) (pos c) h k = refl
le_trans_ℤ (negsuc a) (pos b) (negsuc c) h k = ground arith
le_trans_ℤ (negsuc a) (negsuc b) (pos c) h k = refl
le_trans_ℤ (negsuc a) (negsuc b) (negsuc c) h k = ground arith

inside-within :
    (allowed : ℤ × ℤ) (denied : Option (ℤ × ℤ)) (port : ℤ)
    → inside allowed denied ≡ true
    → within port (some allowed) ≡ true
    → within port denied ≡ true
inside-within allowed none port h k = ground arith
inside-within (start, end) (some (low, high)) port h k =
    ground (arith, le_trans_ℤ low start port, le_trans_ℤ port end high)

any_covers-within :
    (denied : List String) (allowed : ℤ × ℤ) (port : ℤ)
    → any_covers denied allowed ≡ true
    → within port (some allowed) ≡ true
    → any_within denied port ≡ true
unfolding any_covers any_within
any_covers-within [] allowed port h k = ground arith
any_covers-within (range ∷ rest) allowed port h k = ground (
  arith,
  inside-within allowed (parse_port_range range) port,
  any_covers-within rest allowed port,
)

all_covered-within :
    (denied allowed : List String) (port : ℤ)
    → all_covered denied allowed ≡ true
    → any_within allowed port ≡ true
    → any_within denied port ≡ true
unfolding all_covered any_within
all_covered-within denied [] port h k = ground arith
all_covered-within denied (range ∷ rest) port h k = elim (Option-cases (parse_port_range range)) [
  | inl unread ↦ ground arith
  | inr (span, read) ↦
      ground (arith, any_covers-within denied span port, all_covered-within denied rest port)
]

-- If the denied ranges cover the allowed ones, every port that an allowed range contains is in a
-- denied range. No range at all stands for every port.
pub port_ranges_cover-ports_contain :
    (denied allowed : List String) (port : ℤ)
    → port_ranges_cover denied allowed ≡ true
    → ports_contain allowed port ≡ true
    → ports_contain denied port ≡ true
unfolding port_ranges_cover ports_contain
port_ranges_cover-ports_contain [] allowed port h k = refl
port_ranges_cover-ports_contain (range ∷ denied) [] port h k = ground arith
port_ranges_cover-ports_contain (range ∷ denied) (first ∷ rest) port h k =
    all_covered-within (range ∷ denied) (first ∷ rest) port h k
