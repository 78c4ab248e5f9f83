-- ===== src/Base/Parse.antt =====
-- What the standard library reads from a text: prefixes, trimming and the `FromStr` of the
-- unsigned integers. A text is matched by its characters.
use Prim.Native.Char.{Char, code}
use Prim.Native.String.{String, [], ◌∷◌}
use mathlib.Core.Path.{◌≡◌, refl}
use mathlib.Core.Bool.{Bool, true, ◌&&◌, ◌||◌}
use mathlib.Core.Option.{Option, none, some}
use Prim.Native.Nat.{ℕ, ◌+◌, ◌-◌, ◌*◌}
use disks_rs.Base.Tests.{ltb, leb, ◌==◌, if◌then◌else◌}

-- `chars().all(..)`
abbrev pub all_chars : (Char → Bool) → String → Bool
all_chars p [] = true
all_chars p (c ∷ s) = p c && all_chars p s

-- The rest behind a prefix, if the text starts with it: `starts_with` and the slice behind.
abbrev pub strip_prefix : String → String → Option String
strip_prefix [] s = some s
strip_prefix (c ∷ p) [] = none
strip_prefix (c ∷ p) (d ∷ s) = if code c == code d then strip_prefix p s else none

-- `char::is_whitespace`
abbrev pub is_whitespace : Char → Bool
is_whitespace c =
    (leb 9 (code c) && leb (code c) 13)
    || (code c == 32)
    || (code c == 0x85)
    || (code c == 0xA0)
    || (code c == 0x1680)
    || (leb 0x2000 (code c) && leb (code c) 0x200A)
    || (code c == 0x2028)
    || (code c == 0x2029)
    || (code c == 0x202F)
    || (code c == 0x205F)
    || (code c == 0x3000)

abbrev pub trim_start : String → String
trim_start [] = []
trim_start (c ∷ s) = let rest = trim_start s in if is_whitespace c then rest else c ∷ s

abbrev pub trim_end : String → String
trim_end [] = []
trim_end (c ∷ s) = elim (trim_end s) [
  | [] ↦ if is_whitespace c then [] else c ∷ []
  | d ∷ t ↦ c ∷ d ∷ t
]

-- `str::trim`
unfoldable pub trim : String → String
trim s = trim_end (trim_start s)

abbrev pub is_ascii_digit : Char → Bool
is_ascii_digit c = leb 48 (code c) && leb (code c) 57

-- The digits behind the value so far, which stays below the limit `2 ^ w`.
unfoldable pub parse_digits : ℕ → ℕ → String → Option ℕ
parse_digits limit value [] = some value
parse_digits limit value (c ∷ s) =
    let next = value * 10 + (code c - 48) in
    let rest = parse_digits limit next s in
    if is_ascii_digit c && ltb next limit then rest else none

-- `u32::from_str` and `u64::from_str`: a sign "+" may stand in front, and a digit must follow.
unfoldable pub parse_unsigned : ℕ → String → Option ℕ
unfolding parse_digits
parse_unsigned limit [] = none
parse_unsigned limit (c ∷ []) = if code c == 43 then none else parse_digits limit 0 (c ∷ [])
parse_unsigned limit (c ∷ d ∷ s) =
    if code c == 43 then parse_digits limit 0 (d ∷ s) else parse_digits limit 0 (c ∷ d ∷ s)

parse_unsigned_test : parse_unsigned 256 "+255" ≡ some 255
unfolding parse_unsigned
parse_unsigned_test = refl

parse_unsigned_overflow : parse_unsigned 256 "256" ≡ none
unfolding parse_unsigned
parse_unsigned_overflow = refl

trim_test : trim "  a b \n" ≡ "a b"
unfolding trim
trim_test = refl
