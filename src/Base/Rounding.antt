-- ===== src/Base/Rounding.antt =====
-- How far rounding goes: an integer bound of a fraction bounds what it is rounded to, and a number
-- of at most 53 bits is kept.
use Prim.Native.Nat.{ℕ, zero, suc, ◌+◌, ◌-◌, ◌*◌, ◌/◌, ◌%◌, ◌^◌, ◌≤◌, ◌<◌}
use mathlib.Core.Path.{◌≡◌, refl, ap, ◌∙◌}
use mathlib.Core.Logic.{◌⊎◌, inl, inr}
use native.Mathlib.Omega.{arith}
use native.Mathlib.Nat.{
  mod-lt, div-add-mod, div-le_of_le-mul, le-div_iff_mul-le, mul-le-mul_left, mul-le-mul_right,
  one-le-pow, pow-le-pow_right, le_of_mul-le-mul_left, pow-suc, mul-lt-mul_of_pos_right,
}
use disks_rs.Base.Tests.{ltb, ltb→lt, ltb→ge, lt→ltb, Bool-cases}
use disks_rs.Base.Float.{round_half_even, last_bit, round53, to_f64}

round_half_even-cases :
    (a b : ℕ)
    → ((round_half_even a b ≡ a / b) × (2 * (a % b) ≤ b))
      ⊎ ((round_half_even a b ≡ a / b + 1) × (b ≤ 2 * (a % b)))
unfolding round_half_even
round_half_even-cases a b = ground arith

-- The rounded number is nearest to the fraction.
pub round_half_even-nearest :
    (a b : ℕ)
    → 0 < b
    → (2 * (b * round_half_even a b) ≤ 2 * a + b) × (2 * a ≤ 2 * (b * round_half_even a b) + b)
round_half_even-nearest a b h = elim (round_half_even-cases a b) [
  | inl (e, k) ↦ rw e (omega (arith, div-add-mod a b), omega (arith, div-add-mod a b))
  | inr (e, k) ↦
      let grown : b * (a / b + 1) ≡ b * (a / b) + b = grind arith in
      rw (e, grown) (omega (arith, div-add-mod a b), omega (arith, div-add-mod a b, mod-lt a h))
]

round_half_even-le : (a b m : ℕ) → 0 < b → a ≤ b * m → round_half_even a b ≤ m
round_half_even-le a b m h k = elim (round_half_even-cases a b) [
  | inl (e, _) ↦ rw e (div-le_of_le-mul b k)
  | inr (e, half) ↦ elim (Bool-cases (ltb (a / b) m)) [
    | inl lt ↦ rw e (omega (arith, ltb→lt (a / b) m lt))
    | inr ge ↦ absurd (omega (arith, mul-le-mul_left b (ltb→ge (a / b) m ge), div-add-mod a b))
  ]
]

le-round_half_even : (a b m : ℕ) → 0 < b → b * m ≤ a → m ≤ round_half_even a b
le-round_half_even a b m h k =
    let low : m ≤ a / b = (le-div_iff_mul-le h).1 (omega (arith, k)) in
    elim (round_half_even-cases a b) [
      | inl (e, _) ↦ rw e low
      | inr (e, _) ↦ rw e (omega (arith, low))
    ]

-- Above 0 the exponent is no greater than it must be.
abbrev Least : ℕ → ℕ → ℕ → ℕ → Type 0
Least j a b k = (k ≡ j) ⊎ ((j < k) × (b * 2 ^ (k + 52) ≤ a))

Least-next : (j a b k : ℕ) → b * 2 ^ (j + 53) ≤ a → Least (j + 1) a b k → Least j a b k
Least-next j a b k h (inl e) =
    let n : k + 52 ≡ j + 53 = omega (arith, e) in inr (omega (arith, e), rw n h)
Least-next j a b k h (inr (lt, l)) = inr (omega arith, l)

last_bit-Least : (fuel j a b : ℕ) → Least j a b (last_bit fuel j a b)
unfolding last_bit
last_bit-Least zero j a b = inl refl
last_bit-Least (suc fuel) j a b = elim (Bool-cases (ltb a (b * 2 ^ (j + 53)))) [
  | inl lt ↦ rw lt (inl refl)
  | inr ge ↦
      rw ge (Least-next j a b _ (ltb→ge a (b * 2 ^ (j + 53)) ge) (last_bit-Least fuel (j + 1) a b))
]

pow_add : (m n : ℕ) → 2 ^ (m + n) ≡ 2 ^ m * 2 ^ n
pow_add m zero = let e : m + 0 ≡ m = omega arith in ap (λ k. 2 ^ k) e ∙ omega arith
pow_add m (suc n) =
    let e : m + suc n ≡ suc (m + n) = omega arith in
    ap (λ k. 2 ^ k) e
    ∙ pow-suc 2 (m + n)
    ∙ ap (λ k. k * 2) (pow_add m n)
    ∙ grind (arith, pow-suc 2 n)

-- Rounding keeps to a bound that is a number of fewer than 52 bits times a power of two.
abbrev pub IsFine : ℕ → ℕ → ℕ → Type 0
IsFine a b n = last_bit 256 0 a b ≤ n

pub last_bit-IsFine : (a b c n : ℕ) → 0 < b → c < 2 ^ 52 → a ≤ b * (c * 2 ^ n) → IsFine a b n
last_bit-IsFine a b c n pos small h =
    let k = last_bit 256 0 a b in
    elim (last_bit-Least 256 0 a b) [
      | inl e ↦ omega (arith, e)
      | inr (lt, l) ↦ elim (Bool-cases (ltb n k)) [
        | inr ge ↦ ltb→ge n k ge
        | inl above ↦
            let wide : 2 ^ (k + 52) ≤ c * 2 ^ n =
              le_of_mul-le-mul_left {k = b} (omega (arith, l, h)) pos in
            let room : 2 ^ n ≤ 2 ^ k =
              pow-le-pow_right (omega arith) (omega (arith, ltb→lt n k above)) in
            absurd (
              omega (
                arith,
                wide,
                pow_add k 52,
                room,
                mul-lt-mul_of_pos_right small (one-le-pow n 2 (omega arith)),
              ))
      ]
    ]

regroup : (b c u v : ℕ) → b * (c * (u * v)) ≡ b * u * (c * v)
regroup b c u v = grind arith

regroup_back : (c u v : ℕ) → c * v * u ≡ c * (u * v)
regroup_back c u v = grind arith

product-pos : (b u : ℕ) → 0 < b → 1 ≤ u → 0 < b * u
product-pos b u h k = grind arith

split_power : (k n : ℕ) → k ≤ n → 2 ^ n ≡ 2 ^ k * 2 ^ (n - k)
split_power k n h = ap (λ j. 2 ^ j) (omega arith) ∙ pow_add k (n - k)

pub round53-le :
    (a b c n : ℕ) → 0 < b → IsFine a b n → a ≤ b * (c * 2 ^ n) → round53 a b ≤ c * 2 ^ n
unfolding round53
round53-le a b c n pos fine h =
    let k = last_bit 256 0 a b in
    let u = 2 ^ k in
    let v = 2 ^ (n - k) in
    let e : 2 ^ n ≡ u * v = split_power k n fine in
    let bound : round_half_even a (b * u) ≤ c * v =
      round_half_even-le a (b * u) (c * v) (product-pos b u pos (one-le-pow k 2 (omega arith)))
        (omega (arith, h, ap (λ x. b * (c * x)) e, regroup b c u v)) in
    omega (arith, mul-le-mul_right u bound, ap (λ x. c * x) e, regroup_back c u v)

pub le-round53 :
    (a b c n : ℕ) → 0 < b → IsFine a b n → b * (c * 2 ^ n) ≤ a → c * 2 ^ n ≤ round53 a b
unfolding round53
le-round53 a b c n pos fine h =
    let k = last_bit 256 0 a b in
    let u = 2 ^ k in
    let v = 2 ^ (n - k) in
    let e : 2 ^ n ≡ u * v = split_power k n fine in
    let bound : c * v ≤ round_half_even a (b * u) =
      le-round_half_even a (b * u) (c * v) (product-pos b u pos (one-le-pow k 2 (omega arith)))
        (omega (arith, h, ap (λ x. b * (c * x)) e, regroup b c u v)) in
    omega (arith, mul-le-mul_right u bound, ap (λ x. c * x) e, regroup_back c u v)

last_bit-zero : (fuel n : ℕ) → n < 2 ^ 53 → last_bit fuel 0 n 1 ≡ 0
unfolding last_bit
last_bit-zero zero n h = refl
last_bit-zero (suc fuel) n h = rw (lt→ltb n (1 * 2 ^ (0 + 53)) (omega arith)) refl

round_half_even-one : (n : ℕ) → round_half_even n 1 ≡ n
round_half_even-one n =
    let near = round_half_even-nearest n 1 (omega arith) in omega (arith, near.0, near.1)

-- A number of at most 53 bits is itself a float.
pub to_f64-exact : (n : ℕ) → n < 2 ^ 53 → to_f64 n ≡ n
unfolding to_f64 round53
to_f64-exact n h =
    ap (λ j. round_half_even n (1 * 2 ^ j) * 2 ^ j) (last_bit-zero 256 n h)
    ∙ omega (arith, round_half_even-one n)
