-- ===== src/Superblock/Fat.antt =====
-- The FAT boot sector: crates/superblock/src/fat.rs.
use disks_rs.Base.{ℕ, List, [], ◌∷◌}
use disks_rs.Superblock.Format.{Field, field, Format, bytes_eq}

abbrev pub fields : List Field
fields =
    field "ignored" 3
    ∷ field "system_id" 8
    ∷ field "sector_size" 2
    ∷ field "sec_per_clus" 1
    ∷ field "_reserved" 2
    ∷ field "fats" 1
    ∷ field "dir_entries" 2
    ∷ field "sectors" 2
    ∷ field "media" 1
    ∷ field "fat_length" 2
    ∷ field "secs_track" 2
    ∷ field "heads" 2
    ∷ field "hidden" 4
    ∷ field "total_sect" 4
    ∷ field "shared" 54
    ∷ []

abbrev pub fat_16_and_32_fields : List Field
fat_16_and_32_fields =
    field "drive_number" 1
    ∷ field "state" 1
    ∷ field "signature" 1
    ∷ field "vol_id" 4
    ∷ field "vol_label" 11
    ∷ field "fs_type" 8
    ∷ []

abbrev pub fat32_fields : List Field
fat32_fields =
    field "fat32_length" 4
    ∷ field "fat32_flags" 2
    ∷ field "fat32_version" 2
    ∷ field "root_cluster" 4
    ∷ field "info_sector" 2
    ∷ field "backup_boot" 2
    ∷ field "reserved2" 12
    ∷ field "common" 26
    ∷ []

abbrev pub magic : List ℕ
magic = 0x55 ∷ 0xAA ∷ []

-- `impl Detection for Fat`
abbrev pub fat : Format
fat = record {
  offset = 0;
  magic_offset = 0x1FE;
  magic_size = 2;
  is_valid_magic = λ m. bytes_eq m magic;
  fields = fields;
}
