-- ===== src/Types/Filesystems.antt =====
-- Filesystems and size constraints: crates/types/src/{filesystem,constraints}.rs.
use disks_rs.Base.{ℕ, String, Option, Result, ok, err, if◌then◌else◌}
use disks_rs.Base.Text.{str_eq}
use disks_rs.Types.Errors.{Error, unknown_variant}

pub data StandardFilesystemType : Type 0 where
  f2fs ext4 xfs swap : StandardFilesystemType

pub data Filesystem : Type 0 where
  -- label, volume_id
  fat32 : Option String → Option ℕ → Filesystem
  -- filesystem_type, label, uuid
  standard : StandardFilesystemType → Option String → Option String → Filesystem

-- `Display for StandardFilesystemType`
unfoldable pub filesystem_type_to_string : StandardFilesystemType → String
filesystem_type_to_string ext4 = "ext4"
filesystem_type_to_string f2fs = "f2fs"
filesystem_type_to_string xfs = "xfs"
filesystem_type_to_string swap = "swap"

-- `FromStr for StandardFilesystemType`
unfoldable pub filesystem_type_from_str :
    {S : Type 0} → String → Result (Error S) StandardFilesystemType
filesystem_type_from_str value =
    if str_eq value "ext4"
    then ok ext4
    else if str_eq value "f2fs"
    then ok f2fs
    else if str_eq value "xfs"
    then ok xfs
    else if str_eq value "swap"
    then ok swap
    else err unknown_variant

pub data Constraints : Type 0 where
  exact at_least : ℕ → Constraints
  -- min and max
  range : ℕ → ℕ → Constraints
  remaining invalid : Constraints
