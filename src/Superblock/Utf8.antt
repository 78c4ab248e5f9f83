-- ===== src/Superblock/Utf8.antt =====
-- Strings as code points, and what the label functions of crates/superblock/src use of the standard
-- library: `std::str::from_utf8`, `String::from_utf16` and `trim_end_matches`.
use disks_rs.Base.{
  ℕ, zero, suc, ◌+◌, ◌-◌, ◌*◌, ◌%◌, ◌<◌, ◌≡◌, refl, arith, Bool, ◌&&◌, Option, none, some, List, [],
  ◌∷◌, ◌++◌, All, length, drop, replicate, leb, ltb, lt→ltb, ◌==◌, if◌then◌else◌,
}

abbrev pub between : ℕ → ℕ → ℕ → Bool
between lower upper b = leb lower b && leb b upper

abbrev pub is_continuation : ℕ → Bool
is_continuation b = between 0x80 0xBF b

-- The second byte that may follow a first byte of three or four.
abbrev pub second_of_three : ℕ → ℕ → Bool
second_of_three b c =
    if b == 0xE0
    then between 0xA0 0xBF c
    else if b == 0xED
    then between 0x80 0x9F c
    else is_continuation c

abbrev pub second_of_four : ℕ → ℕ → Bool
second_of_four b c =
    if b == 0xF0
    then between 0x90 0xBF c
    else if b == 0xF4
    then between 0x80 0x8F c
    else is_continuation c

-- The character at the head of the bytes, with the number of bytes it takes.
abbrev two_bytes : ℕ → List ℕ → Option (ℕ × ℕ)
two_bytes b [] = none
two_bytes b (c ∷ rest) = if is_continuation c then some ((b % 32) * 64 + c % 64, 2) else none

abbrev three_bytes : ℕ → List ℕ → Option (ℕ × ℕ)
three_bytes b (c ∷ d ∷ rest) =
    if second_of_three b c && is_continuation d
    then some ((b % 16) * 4096 + (c % 64) * 64 + d % 64, 3)
    else none
three_bytes b _ = none

abbrev four_bytes : ℕ → List ℕ → Option (ℕ × ℕ)
four_bytes b (c ∷ d ∷ e ∷ rest) =
    if second_of_four b c && is_continuation d && is_continuation e
    then some ((b % 8) * 262144 + (c % 64) * 4096 + (d % 64) * 64 + e % 64, 4)
    else none
four_bytes b _ = none

abbrev pub next_char : List ℕ → Option (ℕ × ℕ)
next_char [] = none
next_char (b ∷ rest) =
    if ltb b 0x80
    then some (b, 1)
    else if between 0xC2 0xDF b
    then two_bytes b rest
    else if between 0xE0 0xEF b
    then three_bytes b rest
    else if between 0xF0 0xF4 b
    then four_bytes b rest
    else none

-- The characters, on fuel: each round takes at least one byte.
decode : ℕ → List ℕ → Option (List ℕ)
decode fuel [] = some []
decode zero (b ∷ rest) = none
decode (suc fuel) (b ∷ rest) = elim (next_char (b ∷ rest)) [
  | none ↦ none
  | some (ch, n) ↦ elim (decode fuel (drop n (b ∷ rest))) [ none ↦ none | some s ↦ some (ch ∷ s) ]
]

-- `std::str::from_utf8`; `none` is the error.
unfoldable pub from_utf8 : List ℕ → Option (List ℕ)
unfolding decode
from_utf8 bytes = decode (length bytes) bytes

-- `String::from_utf16`, where a surrogate must have its other half.
pub from_utf16 : List ℕ → Option (List ℕ)
from_utf16 [] = some []
from_utf16 (u ∷ []) = if between 0xD800 0xDFFF u then none else some (u ∷ [])
from_utf16 (u ∷ v ∷ rest) =
    let alone = from_utf16 (v ∷ rest) in
    let paired = from_utf16 rest in
    if between 0xD800 0xDBFF u
    then (if between 0xDC00 0xDFFF v
        then elim paired [
          | none ↦ none
          | some s ↦ some ((0x10000 + (u - 0xD800) * 1024 + (v - 0xDC00)) ∷ s)
        ]
        else none)
    else if between 0xDC00 0xDFFF u
    then none
    else elim alone [ none ↦ none | some s ↦ some (u ∷ s) ]

abbrev before_trimmed : ℕ → List ℕ → List ℕ
before_trimmed c [] = if c == 0 then [] else c ∷ []
before_trimmed c (d ∷ u) = c ∷ d ∷ u

-- `trim_end_matches('\0')`
abbrev pub trim_nul : List ℕ → List ℕ
trim_nul [] = []
trim_nul (c ∷ s) = before_trimmed c (trim_nul s)

abbrev pub IsAscii : ℕ → Type 0
IsAscii c = c < 0x80

pub next_char-ascii : (b : ℕ) (rest : List ℕ) → b < 0x80 → next_char (b ∷ rest) ≡ some (b, 1)
next_char-ascii b rest h = rw (lt→ltb b 0x80 h, next_char) refl

decode-ascii :
    (n : ℕ) (bytes : List ℕ) → n ≡ length bytes → All IsAscii bytes → decode n bytes ≡ some bytes
unfolding decode
decode-ascii n [] e h = refl
decode-ascii zero (b ∷ rest) e h = absurd (omega arith)
decode-ascii (suc n) (b ∷ rest) e h =
    rw (next_char-ascii b rest h.0, decode-ascii n rest (omega arith) h.1, decode) refl

-- ASCII bytes are their own characters.
pub from_utf8-ascii : (bytes : List ℕ) → All IsAscii bytes → from_utf8 bytes ≡ some bytes
unfolding from_utf8
from_utf8-ascii bytes h = decode-ascii (length bytes) bytes refl h

-- One character before what is trimmed.
trim_nul-cons : (c : ℕ) (s t : List ℕ) → 0 < c → trim_nul s ≡ t → trim_nul (c ∷ s) ≡ c ∷ t
trim_nul-cons c s [] h e = rw (e, trim_nul) (ground arith)
trim_nul-cons c s (d ∷ u) h e = rw (e, trim_nul) refl

-- Padding with NULs is trimmed away, and nothing else of a text without NULs.
pub trim_nul-padded : (t : List ℕ) (n : ℕ) → All (λ c. 0 < c) t → trim_nul (t ++ replicate n 0) ≡ t
trim_nul-padded [] zero h = refl
trim_nul-padded [] (suc n) h = rw (trim_nul-padded [] n tt, trim_nul) refl
trim_nul-padded (c ∷ t) n h = trim_nul-cons c (t ++ replicate n 0) t h.0 (trim_nul-padded t n h.1)
