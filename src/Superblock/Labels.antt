-- ===== src/Superblock/Labels.antt =====
-- Labels and identifiers of superblocks: the `label`, `uuid` and `fat_type` methods in
-- crates/superblock/src. A string is the list of its characters. `hyphenated` stands for
-- `Uuid::from_bytes(..).hyphenated().to_string()` of the `uuid` crate.
use disks_rs.Base.{
  ℕ, ◌+◌, ◌*◌, ◌/◌, ◌%◌, ◌≡◌, refl, String, ◌&&◌, not, Option, none, some, List, [], ◌∷◌, ◌++◌,
  take, ltb, ◌==◌, if◌then◌else◌,
}
use disks_rs.Superblock.Format.{Field, read_field, size_of}
use disks_rs.Superblock.Utf8.{from_utf8, from_utf16, trim_nul}
use disks_rs.Superblock.Lossy.{from_utf8_lossy, trim_spaces}
use disks_rs.Superblock.Ext4
use disks_rs.Superblock.Btrfs
use disks_rs.Superblock.F2fs
use disks_rs.Superblock.Xfs
use disks_rs.Superblock.Luks2
use disks_rs.Superblock.Fat

-- The bytes of a field, which every struct has.
abbrev pub bytes_of : String → List Field → List ℕ → List ℕ
bytes_of name fields block = elim (read_field name fields block) [ none ↦ [] | some l ↦ l ]

abbrev pub trimmed : Option (List ℕ) → Option (List ℕ)
trimmed none = none
trimmed (some s) = some (trim_nul s)

-- `Ext4::label`
unfoldable pub ext4_label : List ℕ → Option (List ℕ)
ext4_label block = from_utf8 (bytes_of "volume_name" Ext4.fields block)

-- `Btrfs::label`
unfoldable pub btrfs_label : List ℕ → Option (List ℕ)
btrfs_label block = trimmed (from_utf8 (bytes_of "label" Btrfs.fields block))

-- `Xfs::label`
unfoldable pub xfs_label : List ℕ → Option (List ℕ)
xfs_label block = trimmed (from_utf8 (bytes_of "fname" Xfs.fields block))

-- `Luks2::label` and `Luks2::uuid`
unfoldable pub luks2_label : List ℕ → Option (List ℕ)
luks2_label block = trimmed (from_utf8 (bytes_of "label" Luks2.fields block))

unfoldable pub luks2_uuid : List ℕ → Option (List ℕ)
luks2_uuid block = trimmed (from_utf8 (bytes_of "uuid" Luks2.fields block))

-- Two bytes a unit, the lower one first.
abbrev pub units : List ℕ → List ℕ
units (a ∷ b ∷ rest) = (a + 256 * b) ∷ units rest
units _ = []

-- `F2FS::label`
unfoldable pub f2fs_label : List ℕ → Option (List ℕ)
f2fs_label block = trimmed (from_utf16 (units (bytes_of "volume_name" F2fs.fields block)))

-- A number from bytes of which the first is the lowest.
abbrev pub from_le : List ℕ → ℕ
from_le [] = 0
from_le (b ∷ bs) = b + 256 * from_le bs

pub data FatType : Type 0 where
  fat16 fat32 : FatType

-- `Fat::fat32`: the union read as `Fat32Fields`.
abbrev pub shared : List ℕ → List ℕ
shared block = bytes_of "shared" Fat.fields block

-- `Fat::fat16`: the first bytes of the union.
abbrev pub shared16 : List ℕ → List ℕ
shared16 block = take (size_of Fat.fat_16_and_32_fields) (shared block)

-- `Fat::fat_type`
unfoldable pub fat_type : List ℕ → FatType
fat_type block =
    if (from_le (bytes_of "fat_length" Fat.fields block) == 0)
      && not (from_le (bytes_of "fat32_length" Fat.fat32_fields (shared block)) == 0)
    then fat32
    else fat16

-- The fields that both kinds have, where each kind has them.
abbrev pub common : FatType → List ℕ → List ℕ
common fat16 block = shared16 block
common fat32 block = bytes_of "common" Fat.fat32_fields (shared block)

-- A hexadecimal digit in upper case, and `{:04X}` of a number below 2 ^ 16.
abbrev pub hex_digit : ℕ → ℕ
hex_digit d = if ltb d 10 then 48 + d else 55 + d

abbrev pub hex4 : ℕ → List ℕ
hex4 v =
    hex_digit (v / 4096 % 16)
    ∷ hex_digit (v / 256 % 16)
    ∷ hex_digit (v / 16 % 16)
    ∷ hex_digit (v % 16)
    ∷ []

-- `vol_id`, with "-" between the halves
unfoldable pub vol_id : ℕ → List ℕ
vol_id v = hex4 (v / 65536) ++ 45 ∷ hex4 (v % 65536)

-- `Fat::uuid`
unfoldable pub fat_uuid : List ℕ → List ℕ
unfolding fat_type vol_id
fat_uuid block =
    vol_id (from_le (bytes_of "vol_id" Fat.fat_16_and_32_fields (common (fat_type block) block)))

-- `vol_label`
unfoldable pub vol_label : List ℕ → List ℕ
vol_label bytes = trim_spaces (from_utf8_lossy bytes)

-- `Fat::label`
unfoldable pub fat_label : List ℕ → List ℕ
unfolding fat_type vol_label
fat_label block =
    vol_label (bytes_of "vol_label" Fat.fat_16_and_32_fields (common (fat_type block) block))

-- The `uuid` methods of the other structs.
module _ (hyphenated : List ℕ → List ℕ) where
  unfoldable pub ext4_uuid : List ℕ → List ℕ
  ext4_uuid block = hyphenated (bytes_of "uuid" Ext4.fields block)

  unfoldable pub btrfs_uuid : List ℕ → List ℕ
  btrfs_uuid block = hyphenated (bytes_of "fsid" Btrfs.fields block)

  unfoldable pub f2fs_uuid : List ℕ → List ℕ
  f2fs_uuid block = hyphenated (bytes_of "uuid" F2fs.fields block)

  unfoldable pub xfs_uuid : List ℕ → List ℕ
  xfs_uuid block = hyphenated (bytes_of "uuid" Xfs.fields block)

-- The identifier of the crate's test image.
vol_id_test : vol_id 0xA1B2C3D4 ≡ 0x41 ∷ 0x31 ∷ 0x42 ∷ 0x32 ∷ 0x2D ∷ 0x43 ∷ 0x33 ∷ 0x44 ∷ 0x34 ∷ []
unfolding vol_id
vol_id_test = refl
