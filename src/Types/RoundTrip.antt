-- ===== src/Types/RoundTrip.antt =====
-- Which of the types' names are read back: crates/types/src.
use disks_rs.Base.{String, ◌≡◌, refl, ◌↔◌, ok, err, arith}
use disks_rs.Base.Text.{eq_iff}
use disks_rs.Types.Errors.{unknown_variant}
use disks_rs.Types.Roles.{
  PartitionRole, boot, role_to_string, role_from_str, PartitionTableType, gpt, table_to_string,
  table_from_str, PartitionTypeGuid, efi_system_partition, type_guid_to_string, type_guid_from_str,
}
use disks_rs.Types.Units.{StorageUnit, bytes, unit_to_string, unit_from_str}
use disks_rs.Types.Filesystems.{
  StandardFilesystemType, f2fs, filesystem_type_to_string, filesystem_type_from_str,
}

module _ (S : Type 0) where
  -- Exactly one text is read as a given role: the text that the role is shown as.
  pub role_from_str_iff :
      (s : String) (r : PartitionRole) → (role_from_str {S = S} s ≡ ok r) ↔ (s ≡ role_to_string r)
  unfolding role_from_str role_to_string
  role_from_str_iff s boot = (
    λ h. ground (
      arith,
      eq_iff s "boot",
      eq_iff s "extended-boot",
      eq_iff s "root",
      eq_iff s "home",
      eq_iff s "swap",
    ),
    λ e. rw e,
  )
  role_from_str_iff s r = (
    λ h. ground (
      arith,
      eq_iff s "boot",
      eq_iff s "extended-boot",
      eq_iff s "root",
      eq_iff s "home",
      eq_iff s "swap",
    ),
    λ e. rw e,
  )

  -- Exactly one text is read as a given table type: the text that the type is shown as.
  pub table_from_str_iff :
      (s : String) (r : PartitionTableType)
      → (table_from_str {S = S} s ≡ ok r) ↔ (s ≡ table_to_string r)
  unfolding table_from_str table_to_string
  table_from_str_iff s gpt = (λ h. ground (arith, eq_iff s "gpt", eq_iff s "msdos"), λ e. rw e)
  table_from_str_iff s r = (λ h. ground (arith, eq_iff s "gpt", eq_iff s "msdos"), λ e. rw e)

  -- Exactly one text is read as a given filesystem type: the text that the type is shown as.
  pub filesystem_type_from_str_iff :
      (s : String) (r : StandardFilesystemType)
      → (filesystem_type_from_str {S = S} s ≡ ok r) ↔ (s ≡ filesystem_type_to_string r)
  unfolding filesystem_type_from_str filesystem_type_to_string
  filesystem_type_from_str_iff s f2fs = (
    λ h. ground (arith, eq_iff s "ext4", eq_iff s "f2fs", eq_iff s "xfs", eq_iff s "swap"),
    λ e. rw e,
  )
  filesystem_type_from_str_iff s r = (
    λ h. ground (arith, eq_iff s "ext4", eq_iff s "f2fs", eq_iff s "xfs", eq_iff s "swap"),
    λ e. rw e,
  )

  -- The text that a storage unit is shown as is never read back as a unit.
  pub unit_from_str-unit_to_string :
      (u : StorageUnit) → unit_from_str {S = S} (unit_to_string u) ≡ err unknown_variant
  unfolding unit_from_str unit_to_string
  unit_from_str-unit_to_string bytes = refl
  unit_from_str-unit_to_string u = refl

  -- The text that a partition type is shown as is never read back as a partition type.
  pub type_guid_from_str-type_guid_to_string :
      (t : PartitionTypeGuid)
      → type_guid_from_str {S = S} (type_guid_to_string t) ≡ err unknown_variant
  unfolding type_guid_from_str type_guid_to_string
  type_guid_from_str-type_guid_to_string efi_system_partition = refl
  type_guid_from_str-type_guid_to_string t = refl
