-- ===== src/Superblock/Btrfs.antt =====
-- The btrfs superblock: crates/superblock/src/btrfs.rs.
use disks_rs.Base.{ℕ, ◌+◌, List, [], ◌∷◌}
use disks_rs.Superblock.Format.{Field, field, Format, le_bytes, bytes_eq}

abbrev pub fields : List Field
fields =
    field "csum" 32
    ∷ field "fsid" 16
    ∷ field "bytenr" 8
    ∷ field "flags" 8
    ∷ field "magic" 8
    ∷ field "generation" 8
    ∷ field "root" 8
    ∷ field "chunk_root" 8
    ∷ field "log_root" 8
    ∷ field "log_root_transid" 8
    ∷ field "total_bytes" 8
    ∷ field "bytes_used" 8
    ∷ field "root_dir_objectid" 8
    ∷ field "num_devices" 8
    ∷ field "sectorsize" 4
    ∷ field "nodesize" 4
    ∷ field "leafsize" 4
    ∷ field "stripesize" 4
    ∷ field "sys_chunk_array_size" 4
    ∷ field "chunk_root_generation" 8
    ∷ field "compat_flags" 8
    ∷ field "compat_ro_flags" 8
    ∷ field "incompat_flags" 8
    ∷ field "csum_type" 2
    ∷ field "root_level" 1
    ∷ field "chunk_root_level" 1
    ∷ field "log_root_level" 1
    ∷ field "dev_item" 98
    ∷ field "label" 256
    ∷ field "cache_generation" 8
    ∷ field "uuid_tree_generation" 8
    ∷ field "metadata_uuid" 16
    ∷ field "nr_global_roots" 8
    ∷ field "reserved" 32
    ∷ field "sys_chunk_array" 2048
    ∷ field "root_backup" 256
    ∷ []

abbrev pub start_position : ℕ
start_position = 0x10000

abbrev pub magic : List ℕ
magic = le_bytes 8 0x4D5F53665248425F

-- `impl Detection for Btrfs`
abbrev pub btrfs : Format
btrfs = record {
  offset = start_position;
  magic_offset = start_position + 0x40;
  magic_size = 8;
  is_valid_magic = λ m. bytes_eq m magic;
  fields = fields;
}
