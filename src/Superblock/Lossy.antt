-- ===== src/Superblock/Lossy.antt =====
-- `String::from_utf8_lossy` and `trim_end_matches(' ')`, which crates/superblock/src/fat.rs uses of
-- the standard library.
use disks_rs.Base.{
  ℕ, zero, suc, ◌≡◌, refl, arith, ap, Bool, false, List, [], ◌∷◌, ◌++◌, All, length, drop,
  replicate, none, some, ◌==◌, if◌then◌else◌,
}
use disks_rs.Superblock.Utf8.{
  next_char, between, is_continuation, second_of_three, second_of_four, IsAscii, next_char-ascii,
}

abbrev continues : List ℕ → Bool
continues [] = false
continues (c ∷ rest) = is_continuation c

-- How many bytes at the head, where no character stands, make up one invalid sequence: those that
-- a character could begin with, and one at least.
abbrev invalid_length : List ℕ → ℕ
invalid_length [] = 1
invalid_length (b ∷ []) = 1
invalid_length (b ∷ c ∷ rest) =
    if between 0xE0 0xEF b
    then (if second_of_three b c then 2 else 1)
    else if between 0xF0 0xF4 b
    then (if second_of_four b c then (if continues rest then 3 else 2) else 1)
    else 1

-- The characters, with U+FFFD for each invalid sequence, on fuel: each round takes a byte at least.
decode_lossy : ℕ → List ℕ → List ℕ
decode_lossy fuel [] = []
decode_lossy zero (b ∷ rest) = []
decode_lossy (suc fuel) (b ∷ rest) = elim (next_char (b ∷ rest)) [
  | none ↦ 0xFFFD ∷ decode_lossy fuel (drop (invalid_length (b ∷ rest)) (b ∷ rest))
  | some (ch, n) ↦ ch ∷ decode_lossy fuel (drop n (b ∷ rest))
]

unfoldable pub from_utf8_lossy : List ℕ → List ℕ
unfolding decode_lossy
from_utf8_lossy bytes = decode_lossy (length bytes) bytes

-- The first three bytes of a character of four, and a byte of its own.
from_utf8_lossy_test :
    from_utf8_lossy (0xF0 ∷ 0x9F ∷ 0x92 ∷ 0x41 ∷ 0xFF ∷ []) ≡ 0xFFFD ∷ 0x41 ∷ 0xFFFD ∷ []
unfolding from_utf8_lossy
from_utf8_lossy_test = refl

abbrev unless_space : ℕ → List ℕ → List ℕ
unless_space c [] = if c == 32 then [] else c ∷ []
unless_space c (d ∷ u) = c ∷ d ∷ u

-- `trim_end_matches(' ')`
abbrev pub trim_spaces : List ℕ → List ℕ
trim_spaces [] = []
trim_spaces (c ∷ s) = unless_space c (trim_spaces s)

decode_lossy-ascii :
    (n : ℕ) (bytes : List ℕ) → n ≡ length bytes → All IsAscii bytes → decode_lossy n bytes ≡ bytes
unfolding decode_lossy
decode_lossy-ascii n [] e h = refl
decode_lossy-ascii zero (b ∷ rest) e h = absurd (omega arith)
decode_lossy-ascii (suc n) (b ∷ rest) e h =
    rw (next_char-ascii b rest h.0, decode_lossy)
      (ap (◌∷◌ b) (decode_lossy-ascii n rest (omega arith) h.1))

pub from_utf8_lossy-ascii : (bytes : List ℕ) → All IsAscii bytes → from_utf8_lossy bytes ≡ bytes
unfolding from_utf8_lossy
from_utf8_lossy-ascii bytes h = decode_lossy-ascii (length bytes) bytes refl h

-- Spaces behind a text make no difference.
pub trim_spaces-padded : (t : List ℕ) (n : ℕ) → trim_spaces (t ++ replicate n 32) ≡ trim_spaces t
trim_spaces-padded [] zero = refl
trim_spaces-padded [] (suc n) = rw (trim_spaces-padded [] n, trim_spaces)
trim_spaces-padded (c ∷ t) n = ap (unless_space c) (trim_spaces-padded t n)
