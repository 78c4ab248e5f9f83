-- ===== src/Base/Int.antt =====
-- Signed integers over the native numbers, as the `i128` of a KDL document.
use Prim.Native.Nat.{ℕ, ◌-◌, ◌%◌}
use disks_rs.Base.Words.{u64_mod}

-- `negsuc n` is -(n + 1)
pub data ℤ : Type 0 where
  pos : ℕ → ℤ
  negsuc : ℕ → ℤ

-- The cast `as u64` keeps the value modulo 2 ^ 64.
unfoldable pub to_u64 : ℤ → ℕ
to_u64 (pos n) = n % u64_mod
to_u64 (negsuc n) = u64_mod - 1 - n % u64_mod

-- The cast `as u32`.
unfoldable pub to_u32 : ℤ → ℕ
unfolding to_u64
to_u32 v = to_u64 v % 4294967296
