-- ===== src/Superblock/Padded.antt =====
-- Labels that are shorter than their field: the `label` methods in crates/superblock/src.
use disks_rs.Base.{
  ℕ, ◌<◌, ◌≡◌, ap, ◌∙◌, some, List, ◌++◌, All, All-append, All-map, replicate, zero, suc, arith,
}
use disks_rs.Superblock.Utf8.{from_utf8, IsAscii, from_utf8-ascii, trim_nul-padded}
use disks_rs.Superblock.Labels.{bytes_of, trimmed, ext4_label, btrfs_label, xfs_label}
use disks_rs.Superblock.Ext4
use disks_rs.Superblock.Btrfs
use disks_rs.Superblock.Xfs

-- An ASCII text without NULs.
abbrev pub IsText : List ℕ → Type 0
IsText t = All (λ c. (0 < c) × (c < 0x80)) t

zeros-IsAscii : (n : ℕ) → All IsAscii (replicate n 0)
zeros-IsAscii zero = tt
zeros-IsAscii (suc n) = (omega arith, zeros-IsAscii n)

padded :
    (t : List ℕ) (n : ℕ) → IsText t → from_utf8 (t ++ replicate n 0) ≡ some (t ++ replicate n 0)
padded t n h =
    from_utf8-ascii (t ++ replicate n 0)
      (All-append IsAscii t (replicate n 0) (All-map _ IsAscii t (λ c p. p.1) h) (zeros-IsAscii n))

pub trimmed-padded :
    (t : List ℕ) (n : ℕ) → IsText t → trimmed (from_utf8 (t ++ replicate n 0)) ≡ some t
trimmed-padded t n h =
    ap trimmed (padded t n h)
    ∙ ap some (trim_nul-padded t n (All-map _ (λ c. 0 < c) t (λ c p. p.0) h))

-- A label of ASCII characters without NULs that its field pads with NULs is read back as it is from
-- a btrfs superblock.
pub btrfs_label-padded :
    (block t : List ℕ) (n : ℕ)
    → IsText t
    → bytes_of "label" Btrfs.fields block ≡ t ++ replicate n 0
    → btrfs_label block ≡ some t
unfolding btrfs_label
btrfs_label-padded block t n h e = ap (λ l. trimmed (from_utf8 l)) e ∙ trimmed-padded t n h

-- A label of ASCII characters without NULs that its field pads with NULs is read back as it is from
-- an XFS superblock.
pub xfs_label-padded :
    (block t : List ℕ) (n : ℕ)
    → IsText t
    → bytes_of "fname" Xfs.fields block ≡ t ++ replicate n 0
    → xfs_label block ≡ some t
unfolding xfs_label
xfs_label-padded block t n h e = ap (λ l. trimmed (from_utf8 l)) e ∙ trimmed-padded t n h

-- An ext4 label of ASCII characters without NULs is read with all the NULs that pad its field.
pub ext4_label-padded :
    (block t : List ℕ) (n : ℕ)
    → IsText t
    → bytes_of "volume_name" Ext4.fields block ≡ t ++ replicate n 0
    → ext4_label block ≡ some (t ++ replicate n 0)
unfolding ext4_label
ext4_label-padded block t n h e = ap from_utf8 e ∙ padded t n h
