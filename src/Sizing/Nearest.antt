-- ===== src/Sizing/Nearest.antt =====
-- Where the two alignment functions send a position.
use native.Mathlib.Nat.{mod-lt, div-add-mod, mul-mod_right}
use disks_rs.Base.{ℕ, ◌+◌, ◌-◌, ◌*◌, ◌%◌, ◌/◌, ◌≤◌, ◌<◌, ◌≡◌, ◌≢◌, true, arith, u64_mod, add64-eq}
use disks_rs.Sizing.{is_aligned, align_up, align_down}

-- The multiples below and above.
multiple_below : (v a : ℕ) → (v - v % a) % a ≡ 0
multiple_below v a =
    let e : v - v % a ≡ a * (v / a) = omega (arith, div-add-mod v a) in
    rw e (mul-mod_right a (v / a))

multiple_above : (v a : ℕ) → 0 < a → (v + (a - v % a)) % a ≡ 0
multiple_above v a pos =
    let e : v + (a - v % a) ≡ a * (v / a + 1) = omega (arith, div-add-mod v a, mod-lt v pos) in
    rw e (mul-mod_right a (v / a + 1))

module _ (v a : ℕ) (pos : 0 < a) (fits : v + a < u64_mod) where
  -- For a positive alignment and no overflow, `align_up` yields a multiple of the alignment at a
  -- distance of at most half of it, which may lie below the value.
  pub align_up-nearest :
      (is_aligned (align_up v a) a ≡ true) × (align_up v a ≤ v + a / 2) × (v ≤ align_up v a + a / 2)
  unfolding is_aligned align_up
  align_up-nearest =
      ground
        (arith, multiple_below v a, multiple_above v a pos, mod-lt v pos, add64-eq v (a - v % a))

  -- For a positive alignment and no overflow, `align_down` yields a multiple of the alignment at a
  -- distance of at most half of it (rounded up), which may lie above the value.
  pub align_down-nearest :
      (is_aligned (align_down v a) a ≡ true)
      × (align_down v a ≤ v + (a - a / 2))
      × (v ≤ align_down v a + a / 2)
  unfolding is_aligned align_down
  align_down-nearest =
      ground
        (arith, multiple_below v a, multiple_above v a pos, mod-lt v pos, add64-eq v (a - v % a))

  -- For a positive alignment and no overflow, the two functions agree on a value whose remainder
  -- is not exactly half the alignment.
  pub align_up-align_down : v % a ≢ a / 2 → align_up v a ≡ align_down v a
  unfolding align_up align_down
  align_up-align_down h = ground (arith, mod-lt v pos, add64-eq v (a - v % a))

  -- At a remainder of exactly half the alignment `align_up` goes down and `align_down` goes up: their
  -- results are one alignment apart.
  align_halfway : v % a ≡ a / 2 → v % a ≢ 0 → align_down v a ≡ align_up v a + a
  unfolding align_up align_down
  align_halfway h k = ground (arith, mod-lt v pos, add64-eq v (a - v % a))

-- On a value that is aligned both functions are the identity.
pub align_aligned : (v a : ℕ) → is_aligned v a ≡ true → (align_up v a ≡ v) × (align_down v a ≡ v)
unfolding is_aligned align_up align_down
align_aligned v a h = ground arith
