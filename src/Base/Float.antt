-- ===== src/Base/Float.antt =====
-- The numbers of type f64 that the program prints: none of them is negative or too small for a full
-- mantissa, and an infinity comes of a quotient by 0 alone, which is left to the caller. A float is
-- a fraction whose denominator is a power of two, and each operation rounds to 53 significant bits,
-- a tie to the even neighbour. `{:.1}` and `{:.2}` round the exact value of the float in the same way.
use Prim.Native.Nat.{ℕ, zero, suc, ◌+◌, ◌*◌, ◌/◌, ◌%◌, ◌^◌}
use Prim.Native.String.{String}
use mathlib.Core.Path.{◌≡◌, refl}
use disks_rs.Base.Tests.{ltb, if◌then◌else◌}
use disks_rs.Base.Text.{concat, digit, decimal}

-- The integer nearest to `a / b`; of two, the even one.
unfoldable pub round_half_even : ℕ → ℕ → ℕ
round_half_even a b =
    let q = a / b in
    let r = 2 * (a % b) in if ltb r b then q else if ltb b r then q + 1 else q + q % 2

-- The exponent of the last of the 53 bits of `a / b`, which is 0 at least; on fuel, one unit for each
-- bit that `a` has more.
unfoldable pub last_bit : ℕ → ℕ → ℕ → ℕ → ℕ
last_bit zero j a b = j
last_bit (suc fuel) j a b =
    let rest = last_bit fuel (j + 1) a b in if ltb a (b * 2 ^ (j + 53)) then j else rest

-- The number with 53 significant bits nearest to `a / b`, for numbers of fewer than 309 bits.
unfoldable pub round53 : ℕ → ℕ → ℕ
unfolding round_half_even last_bit
round53 a b = let j = last_bit 256 0 a b in round_half_even a (b * 2 ^ j) * 2 ^ j

-- `n as f64`
unfoldable pub to_f64 : ℕ → ℕ
unfolding round53
to_f64 n = round53 n 1

-- `{:.1}` of the float `n / d`.
unfoldable pub one_place : ℕ → ℕ → String
unfolding round_half_even
one_place n d =
    let t = round_half_even (n * 10) d in concat (decimal (t / 10)) (concat "." (digit (t % 10)))

-- `{:.2}` of the float `n / d`.
unfoldable pub two_places : ℕ → ℕ → String
unfolding round_half_even
two_places n d =
    let t = round_half_even (n * 100) d in
    concat (decimal (t / 100)) (concat "." (concat (digit (t / 10 % 10)) (digit (t % 10))))

float_tests :
    (to_f64 9007199254740993 ≡ 9007199254740992)
    × (to_f64 18446744073709551615 ≡ 18446744073709551616)
    × (one_place 1500 1024 ≡ "1.5")
    × (two_places 1 8 ≡ "0.12")
unfolding to_f64 one_place two_places decimal
float_tests = (refl, refl, refl, refl)
