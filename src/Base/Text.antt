-- ===== src/Base/Text.antt =====
-- Text: equality, concatenation and the decimal numerals of `format!`.
use Prim.Native.Nat.{ℕ, zero, suc, ◌/◌, ◌%◌}
use Prim.Native.String
use mathlib.Core.Path.{◌≡◌, refl}
use mathlib.Core.List.{List, [], ◌∷◌}
use Prim.Native.String.{String}
pub use text.Mathlib.Text.{◌==◌ as str_eq}
pub use text.Mathlib.TextEquality.{eq_iff}

abbrev pub concat : String → String → String
concat s t = String.◌++◌ s t

abbrev pub concat_all : List String → String
concat_all [] = ""
concat_all (s ∷ ss) = concat s (concat_all ss)

abbrev pub digit : ℕ → String
digit zero = "0"
digit (suc zero) = "1"
digit (suc (suc zero)) = "2"
digit (suc (suc (suc zero))) = "3"
digit (suc (suc (suc (suc zero)))) = "4"
digit (suc (suc (suc (suc (suc zero))))) = "5"
digit (suc (suc (suc (suc (suc (suc zero)))))) = "6"
digit (suc (suc (suc (suc (suc (suc (suc zero))))))) = "7"
digit (suc (suc (suc (suc (suc (suc (suc (suc zero)))))))) = "8"
digit _ = "9"

-- The numeral of `n`, written by the last digit first; a round per digit, so `n + 1` rounds
-- are enough.
unfoldable pub numeral : ℕ → ℕ → String
numeral zero n = ""
numeral (suc fuel) n = elim (n / 10) [
  | zero ↦ digit (n % 10)
  | suc q ↦ concat (numeral fuel (suc q)) (digit (n % 10))
]

unfoldable pub decimal : ℕ → String
unfolding numeral
decimal n = numeral (suc n) n

decimal_test : decimal 1048576 ≡ "1048576"
unfolding decimal
decimal_test = refl
