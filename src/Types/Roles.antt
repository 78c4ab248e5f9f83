-- ===== src/Types/Roles.antt =====
-- Roles, table types and partition types, and the names by which they are read and shown:
-- crates/types/src/{partition_role,partition_table,partition_type}.rs.
use disks_rs.Base.{String, Result, ok, err, if◌then◌else◌}
use disks_rs.Base.Text.{str_eq}
use disks_rs.Types.Errors.{Error, unknown_variant}

pub data PartitionRole : Type 0 where
  boot extended_boot root home swap : PartitionRole

unfoldable pub as_path : PartitionRole → String
as_path boot = "/efi"
as_path extended_boot = "/boot"
as_path root = "/"
as_path home = "/home"
as_path swap = "swap"

-- `Display for PartitionRole`
unfoldable pub role_to_string : PartitionRole → String
role_to_string boot = "boot"
role_to_string extended_boot = "extended-boot"
role_to_string root = "root"
role_to_string home = "home"
role_to_string swap = "swap"

-- `FromStr for PartitionRole`
unfoldable pub role_from_str : {S : Type 0} → String → Result (Error S) PartitionRole
role_from_str value =
    if str_eq value "boot"
    then ok boot
    else if str_eq value "extended-boot"
    then ok extended_boot
    else if str_eq value "root"
    then ok root
    else if str_eq value "home"
    then ok home
    else if str_eq value "swap"
    then ok swap
    else err unknown_variant

pub data PartitionTableType : Type 0 where
  gpt msdos : PartitionTableType

-- `Display for PartitionTableType`
unfoldable pub table_to_string : PartitionTableType → String
table_to_string gpt = "gpt"
table_to_string msdos = "msdos"

-- `FromStr for PartitionTableType`
unfoldable pub table_from_str : {S : Type 0} → String → Result (Error S) PartitionTableType
table_from_str value =
    if str_eq value "gpt"
    then ok gpt
    else if str_eq value "msdos"
    then ok msdos
    else err unknown_variant

-- `PartitionTypeKDL`
pub data PartitionTypeKdl : Type 0 where
  guid : PartitionTypeKdl

unfoldable pub type_kdl_to_string : PartitionTypeKdl → String
type_kdl_to_string guid = "guid"

unfoldable pub type_kdl_from_str : {S : Type 0} → String → Result (Error S) PartitionTypeKdl
type_kdl_from_str value = if str_eq value "guid" then ok guid else err unknown_variant

pub data PartitionTypeGuid : Type 0 where
  efi_system_partition extended_boot_loader linux_swap linux_filesystem : PartitionTypeGuid

-- `Display for PartitionTypeGuid`
unfoldable pub type_guid_to_string : PartitionTypeGuid → String
type_guid_to_string efi_system_partition = "EFI System Partition"
type_guid_to_string extended_boot_loader = "Linux Extended Boot"
type_guid_to_string linux_filesystem = "Linux Filesystem"
type_guid_to_string linux_swap = "Linux Swap"

-- `FromStr for PartitionTypeGuid`
unfoldable pub type_guid_from_str : {S : Type 0} → String → Result (Error S) PartitionTypeGuid
type_guid_from_str value =
    if str_eq value "efi-system-partition"
    then ok efi_system_partition
    else if str_eq value "linux-extended-boot"
    then ok extended_boot_loader
    else if str_eq value "linux-swap"
    then ok linux_swap
    else if str_eq value "linux-fs"
    then ok linux_filesystem
    else err unknown_variant

-- The partition type constants of the `gpt` crate.
pub record GptTypes (G : Type 0) : Type 0 where
  pub efi : G
  pub freedesk_boot : G
  pub linux_swap_type : G
  pub linux_fs : G
  pub basic : G

unfoldable pub as_guid : {G : Type 0} → GptTypes G → PartitionTypeGuid → G
as_guid t efi_system_partition = t.efi
as_guid t extended_boot_loader = t.freedesk_boot
as_guid t linux_swap = t.linux_swap_type
as_guid t linux_filesystem = t.linux_fs
