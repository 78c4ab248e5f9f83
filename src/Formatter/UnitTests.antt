-- ===== src/Formatter/UnitTests.antt =====
-- The formatter's own tests, for every identifier: crates/partitioning/src/formatter.rs, `mod tests`.
use disks_rs.Base.{◌≡◌, refl, String, some, [], ◌∷◌}
use disks_rs.Base.Text.{concat, decimal}
use disks_rs.Types.{Filesystem, fat32, standard, StandardFilesystemType}
use disks_rs.Formatter.{mkfs_command, uuid_arg, label_arg}

abbrev boot : Filesystem
boot = fat32 (some "BOOT") (some 1234)

abbrev TestFat32Args : Type 0
TestFat32Args =
    (mkfs_command boot ≡ "mkfs.fat")
    × (uuid_arg boot ≡ "-i" ∷ "1234" ∷ [])
    × (label_arg boot ≡ "-n" ∷ "BOOT" ∷ [])

abbrev root : String → Filesystem
root uuid = standard StandardFilesystemType.ext4 (some "root") (some uuid)

abbrev TestExt4Args : String → Type 0
TestExt4Args uuid =
    (mkfs_command (root uuid) ≡ "mkfs.ext4")
    × (uuid_arg (root uuid) ≡ "-U" ∷ uuid ∷ [])
    × (label_arg (root uuid) ≡ "-L" ∷ "root" ∷ [])

abbrev xfs_root : String → Filesystem
xfs_root uuid = standard StandardFilesystemType.xfs (some "data") (some uuid)

abbrev TestXfsArgs : String → Type 0
TestXfsArgs uuid =
    (mkfs_command (xfs_root uuid) ≡ "mkfs.xfs")
    × (uuid_arg (xfs_root uuid) ≡ "-m" ∷ concat "uuid=" uuid ∷ [])
    × (label_arg (xfs_root uuid) ≡ "-L" ∷ "data" ∷ [])

all_pass : TestFat32Args × ((uuid : String) → TestExt4Args uuid × TestXfsArgs uuid)
unfolding mkfs_command uuid_arg label_arg decimal
all_pass = ((refl, refl, refl), λ uuid. ((refl, refl, refl), (refl, refl, refl)))
