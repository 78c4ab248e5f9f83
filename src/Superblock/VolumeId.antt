-- ===== src/Superblock/VolumeId.antt =====
-- The identifiers and labels of FAT filesystems: crates/superblock/src/fat.rs.
use disks_rs.Base.{
  ℕ, ◌/◌, ◌%◌, ◌<◌, ◌^◌, ◌≡◌, refl, ap, ◌∙◌, List, ◌++◌, All, All-append, replicate, zero, suc,
  arith, get_elem?, some, some-inj, sym,
}
use disks_rs.Superblock.Utf8.{IsAscii}
use disks_rs.Superblock.Lossy.{
  from_utf8_lossy, trim_spaces, from_utf8_lossy-ascii, trim_spaces-padded,
}
use disks_rs.Superblock.Labels.{bytes_of, common, fat_type, vol_label, fat_label, hex_digit, vol_id}
use disks_rs.Superblock.Fat

hex_digit_inj : (a b : ℕ) → a < 16 → b < 16 → hex_digit a ≡ hex_digit b → a ≡ b
hex_digit_inj a b h k e = ground arith

-- The digit at a place.
digit_at :
    (i a b : ℕ) (v w : List ℕ)
    → a < 16
    → b < 16
    → get_elem? v i ≡ some (hex_digit a)
    → get_elem? w i ≡ some (hex_digit b)
    → v ≡ w
    → a ≡ b
digit_at i a b v w h k p q e =
    hex_digit_inj a b h k (some-inj (sym p ∙ ap (λ l. get_elem? l i) e ∙ q))

-- Two identifiers of 32 bits that are printed alike are equal.
pub vol_id_inj : (v w : ℕ) → v < 2 ^ 32 → w < 2 ^ 32 → vol_id v ≡ vol_id w → v ≡ w
unfolding vol_id
vol_id_inj v w h k e =
    let d =
      λ (i a b : ℕ) (l : a < 16) (m : b < 16) (p : get_elem? (vol_id v) i ≡ some (hex_digit a))
          (q : get_elem? (vol_id w) i ≡ some (hex_digit b)).
        digit_at i a b (vol_id v) (vol_id w) l m p q e in
    let d7 =
      d 0 (v / 65536 / 4096 % 16) (w / 65536 / 4096 % 16) (omega arith) (omega arith) refl refl in
    let d6 =
      d 1 (v / 65536 / 256 % 16) (w / 65536 / 256 % 16) (omega arith) (omega arith) refl refl in
    let d5 =
      d 2 (v / 65536 / 16 % 16) (w / 65536 / 16 % 16) (omega arith) (omega arith) refl refl in
    let d4 = d 3 (v / 65536 % 16) (w / 65536 % 16) (omega arith) (omega arith) refl refl in
    let d3 =
      d 5 (v % 65536 / 4096 % 16) (w % 65536 / 4096 % 16) (omega arith) (omega arith) refl refl in
    let d2 =
      d 6 (v % 65536 / 256 % 16) (w % 65536 / 256 % 16) (omega arith) (omega arith) refl refl in
    let d1 =
      d 7 (v % 65536 / 16 % 16) (w % 65536 / 16 % 16) (omega arith) (omega arith) refl refl in
    let d0 = d 8 (v % 65536 % 16) (w % 65536 % 16) (omega arith) (omega arith) refl refl in
    omega (arith, d7, d6, d5, d4, d3, d2, d1, d0)

spaces-IsAscii : (n : ℕ) → All IsAscii (replicate n 32)
spaces-IsAscii zero = tt
spaces-IsAscii (suc n) = (omega arith, spaces-IsAscii n)

-- A label of ASCII characters whose last is no space, padded with spaces in its field, is read
-- back as it is, whether the filesystem is taken for FAT16 or FAT32.
pub fat_label-padded :
    (block t : List ℕ) (n : ℕ)
    → All IsAscii t
    → trim_spaces t ≡ t
    → bytes_of "vol_label" Fat.fat_16_and_32_fields (common (fat_type block) block)
      ≡ t ++ replicate n 32
    → fat_label block ≡ t
unfolding fat_label vol_label
fat_label-padded block t n ascii ends e =
    ap (λ l. trim_spaces (from_utf8_lossy l)) e
    ∙ ap trim_spaces (
        from_utf8_lossy-ascii (t ++ replicate n 32)
          (All-append IsAscii t (replicate n 32) ascii (spaces-IsAscii n)))
    ∙ trim_spaces-padded t n
    ∙ ends
