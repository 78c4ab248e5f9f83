-- ===== src/Sizing/Shown.antt =====
-- What the texts of sizes and positions show: crates/disks/src/sizing.rs, `format_size` and
-- `format_position`.
use native.Mathlib.Nat.{mul-le-mul_right}
use disks_rs.Base.{
  ℕ, ◌+◌, ◌*◌, ◌/◌, ◌%◌, ◌^◌, ◌-◌, ◌≤◌, ◌<◌, ◌≡◌, refl, ap, ◌∙◌, arith, inl, inr, ◌⊎◌, String, Bool,
  false, min, leb, leb→le, leb→gt, Bool-cases, u64_mod, ◌==◌, if◌then◌else◌,
}
use disks_rs.Base.Text.{concat, digit, decimal}
use disks_rs.Base.Float.{round_half_even, round53, to_f64, one_place}
use disks_rs.Base.Rounding.{
  round_half_even-nearest, to_f64-exact, last_bit-IsFine, round53-le, le-round53,
}
use disks_rs.Sizing.Text.{kb, mb, gb, tb, size_text, format_size, scale, float_percent, percent}

pub data SizeUnit : Type 0 where
  kib mib gib tib : SizeUnit

abbrev pub bytes : SizeUnit → ℕ
bytes kib = kb
bytes mib = mb
bytes gib = gb
bytes tib = tb

abbrev pub suffix : SizeUnit → String
suffix kib = "KiB"
suffix mib = "MiB"
suffix gib = "GiB"
suffix tib = "TiB"

-- A number of tenths.
abbrev pub tenths : ℕ → String
tenths t = concat (decimal (t / 10)) (concat "." (digit (t % 10)))

-- The text of a size shows it in a unit, in tenths that are nearest to it.
pub record IsShown (n : ℕ) (text : String) (u : SizeUnit) (t : ℕ) : Type 0 where
  pub is_text : text ≡ concat (tenths t) (suffix u)
  pub from : bytes u ≤ n
  pub below : (n < 1024 * bytes u) ⊎ (u ≡ tib)
  pub not_above : 2 * (bytes u * t) ≤ 2 * (n * 10) + bytes u
  pub not_below : 2 * (n * 10) ≤ 2 * (bytes u * t) + bytes u

in_unit :
    (n : ℕ) (text : String) (u : SizeUnit)
    → text ≡ concat (one_place n (bytes u)) (suffix u)
    → 0 < bytes u
    → bytes u ≤ n
    → (n < 1024 * bytes u) ⊎ (u ≡ tib)
    → (v : SizeUnit) × (t : ℕ) × IsShown n text v t
unfolding one_place
in_unit n text u e pos low high =
    let near = round_half_even-nearest (n * 10) (bytes u) pos in
    (
      u,
      round_half_even (n * 10) (bytes u),
      record { is_text = e; from = low; below = high; not_above = near.0; not_below = near.1 },
    )

size_text-IsShown : (n : ℕ) → 1024 ≤ n → (v : SizeUnit) × (t : ℕ) × IsShown n (size_text n) v t
unfolding size_text
size_text-IsShown n h = elim (Bool-cases (leb tb n)) [
  | inl e ↦ in_unit n _ tib (rw e refl) (omega arith) (leb→le tb n e) (inr refl)
  | inr e ↦ elim (Bool-cases (leb gb n)) [
    | inl f ↦
        in_unit n _ gib (rw (e, f) refl) (omega arith) (leb→le gb n f)
          (inl (omega (arith, leb→gt tb n e)))
    | inr f ↦ elim (Bool-cases (leb mb n)) [
      | inl g ↦
          in_unit n _ mib (rw (e, f, g) refl) (omega arith) (leb→le mb n g)
            (inl (omega (arith, leb→gt gb n f)))
      | inr g ↦ elim (Bool-cases (leb kb n)) [
        | inl k ↦
            in_unit n _ kib (rw (e, f, g, k) refl) (omega arith) h
              (inl (omega (arith, leb→gt mb n g)))
        | inr k ↦ absurd (omega (arith, leb→gt kb n k))
      ]
    ]
  ]
]

-- A size from 1024 on and below 2 ^ 53 is shown in the largest unit that is not above it (TiB at
-- most), with the number of tenths that is nearest to the exact size: the arithmetic with floats
-- rounds nothing but the last digit shown.
pub format_size-IsShown :
    (n : ℕ) → 1024 ≤ n → n < 2 ^ 53 → (u : SizeUnit) × (t : ℕ) × IsShown n (format_size n) u t
unfolding format_size
format_size-IsShown n h k = rw (to_f64-exact n k) (size_text-IsShown n h)

not_zero : (n : ℕ) → 0 < n → (n == 0) ≡ false
not_zero n h = ground arith

-- The two roundings keep to the bound of 100 percent.
module _ (pos total : ℕ) where
  quotient : ℕ
  quotient = round53 (pos * scale) total

  quotient-le : 0 < total → pos ≤ total → quotient ≤ scale
  unfolding quotient
  quotient-le h k =
      let bound : pos * scale ≤ total * (1 * 2 ^ 128) = omega (arith, mul-le-mul_right scale k) in
      omega (
        arith,
        round53-le (pos * scale) total 1 128 h
            (last_bit-IsFine (pos * scale) total 1 128 h (omega arith) bound) bound,
      )

  le-quotient : 0 < total → pos ≡ total → scale ≤ quotient
  unfolding quotient
  le-quotient h k =
      let bound : pos * scale ≤ total * (1 * 2 ^ 128) = omega (arith, ap (λ x. x * scale) k) in
      omega (
        arith,
        le-round53 (pos * scale) total 1 128 h
            (last_bit-IsFine (pos * scale) total 1 128 h (omega arith) bound)
            (omega (arith, ap (λ x. x * scale) k)),
      )

  hundredfold-le : quotient ≤ scale → round53 (quotient * 100) 1 ≤ 100 * scale
  hundredfold-le h =
      round53-le (quotient * 100) 1 100 128 (omega arith)
        (last_bit-IsFine (quotient * 100) 1 100 128 (omega arith) (omega arith) (omega arith))
        (omega arith)

  le-hundredfold : quotient ≤ scale → scale ≤ quotient → 100 * scale ≤ round53 (quotient * 100) 1
  le-hundredfold h k =
      le-round53 (quotient * 100) 1 100 128 (omega arith)
        (last_bit-IsFine (quotient * 100) 1 100 128 (omega arith) (omega arith) (omega arith))
        (omega arith)

  percent-finite :
      0 < total → pos < 2 ^ 53 → total < 2 ^ 53 → percent pos total ≡ float_percent pos total
  unfolding percent
  percent-finite h k l =
      ap
        (λ (b : Bool).
          if b
          then if pos == 0 then 0 else u64_mod - 1
          else float_percent (to_f64 pos) (to_f64 total))
        (not_zero total h)
      ∙ ap (λ p. float_percent p (to_f64 total)) (to_f64-exact pos k)
      ∙ ap (float_percent pos) (to_f64-exact total l)

  float_percent-quotient :
      float_percent pos total ≡ min (round53 (quotient * 100) 1 / scale) (u64_mod - 1)
  unfolding float_percent quotient
  float_percent-quotient = refl

  -- Below 2 ^ 53, a position within a total that is not 0 is shown with 100% at most, and the total
  -- itself with 100%.
  pub percent-le :
      0 < total
      → total < 2 ^ 53
      → pos ≤ total
      → (percent pos total ≤ 100) × (pos ≡ total → percent pos total ≡ 100)
  percent-le h l k =
      let e = percent-finite h (omega arith) l ∙ float_percent-quotient in
      let top = hundredfold-le (quotient-le h k) in
      (
        omega (arith, e, top),
        λ same. omega (arith, e, top, le-hundredfold (quotient-le h k) (le-quotient h same)),
      )
