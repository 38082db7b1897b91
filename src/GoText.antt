-- ===== src/GoText.antt =====
-- What the code uses of Go's `strings` and `strconv` that does not depend on Unicode tables, on the
-- native texts. Positions are bytes.
use Prim.Native.Char.{code}
use Prim.Native.String.{String, len, slice}
use Prim.Native.String
use text.Mathlib.Text.{starts_with, find?}
use aura_tracker_gcp.Prelude.{
  ℕ, ◌+◌, ◌-◌, ◌*◌, ◌^◌, Bool, true, false, not, ◌&&◌, Option, none, some, List, [], ◌∷◌, ◌==◌,
  string_eq, nat_eq, ltb, leb, if◌then◌else◌, ◌≡◌, refl,
}
use aura_tracker_gcp.Message.{ℤ, pos, negsuc}

-- strings.HasPrefix
abbrev pub has_prefix : String → String → Bool
has_prefix s t = starts_with s t

-- strings.HasSuffix
unfoldable pub has_suffix : String → String → Bool
has_suffix String.[] t = t == ""
has_suffix (String.◌∷◌ c s) t = if String.◌∷◌ c s == t then true else has_suffix s t

abbrev is_found : Option ℕ → Bool
is_found none = false
is_found (some i) = true

-- strings.Contains
unfoldable pub contains_text : String → String → Bool
contains_text s t = is_found (find? s t)

-- strings.TrimPrefix
unfoldable pub trim_prefix : String → String → String
trim_prefix s t = if starts_with s t then slice s (len t) (len s) else s

-- before, after, found := strings.Cut(s, sep); none is not found
unfoldable pub cut : String → String → Option (String × String)
cut s sep = elim (find? s sep) [
  | none ↦ none
  | some i ↦ some (slice s 0 i, slice s (i + len sep) (len s))
]

abbrev digit? : ℕ → Bool
digit? c = leb b'0' c && leb c b'9'

-- The loop of allDecimal and of strconv.Atoi: every character a decimal digit.
unfoldable pub every_digit : String → Bool
every_digit String.[] = true
every_digit (String.◌∷◌ c s) = if digit? (code c) then every_digit s else false

unfoldable pub digits_value : ℕ → String → ℕ
digits_value n String.[] = n
digits_value n (String.◌∷◌ c s) = digits_value (n * 10 + (code c - b'0')) s

-- The digits of a number of at most `limit`.
abbrev unsigned : ℕ → String → Option ℕ
unsigned limit s =
    if s == ""
    then none
    else if not (every_digit s)
    then none
    else if ltb limit (digits_value 0 s)
    then none
    else some (digits_value 0 s)

abbrev pub minus : ℕ → ℤ
minus ℕ.zero = pos 0
minus (ℕ.suc n) = negsuc n

-- strconv.Atoi on 64 bits, none for an error
unfoldable pub atoi : String → Option ℤ
atoi s =
    if starts_with s "-"
    then elim (unsigned (2 ^ 63) (trim_prefix s "-")) [ none ↦ none | some n ↦ some (minus n) ]
    else elim (unsigned (2 ^ 63 - 1) (trim_prefix s "+")) [ none ↦ none | some n ↦ some (pos n) ]

-- strings.Join
unfoldable pub join : List String → String → String
join [] sep = ""
join (s ∷ []) sep = s
join (s ∷ t ∷ rest) sep = String.◌++◌ s (String.◌++◌ sep (join (t ∷ rest) sep))

-- The order of integers.
abbrev pub le_ℤ : ℤ → ℤ → Bool
le_ℤ (pos m) (pos n) = leb m n
le_ℤ (pos m) (negsuc n) = false
le_ℤ (negsuc m) (pos n) = true
le_ℤ (negsuc m) (negsuc n) = leb n m

atoi_port : atoi "3389" ≡ some (pos 3389)
unfolding atoi trim_prefix every_digit digits_value
atoi_port = refl

suffix_found : has_suffix "roles/iam.serviceAccountAdmin" "Admin" ≡ true
unfolding has_suffix
suffix_found = refl

cut_range : cut "80-443" "-" ≡ some ("80", "443")
unfolding cut
cut_range = refl
