-- ===== src/Superblock/F2fs.antt =====
-- The F2FS superblock: crates/superblock/src/f2fs.rs. A `Device` in the list `devs` takes 64 bytes
-- for its path and 4 for its segments.
use disks_rs.Base.{ℕ, List, [], ◌∷◌}
use disks_rs.Superblock.Format.{Field, field, Format, le_bytes, bytes_eq}

abbrev pub fields : List Field
fields =
    field "magic" 4
    ∷ field "major_ver" 2
    ∷ field "minor_ver" 2
    ∷ field "log_sectorsize" 4
    ∷ field "log_sectors_per_block" 4
    ∷ field "log_blocksize" 4
    ∷ field "log_blocks_per_seg" 4
    ∷ field "segs_per_sec" 4
    ∷ field "secs_per_zone" 4
    ∷ field "checksum_offset" 4
    ∷ field "block_count" 8
    ∷ field "section_count" 4
    ∷ field "segment_count" 4
    ∷ field "segment_count_ckpt" 4
    ∷ field "segment_count_sit" 4
    ∷ field "segment_count_nat" 4
    ∷ field "segment_count_ssa" 4
    ∷ field "segment_count_main" 4
    ∷ field "segment0_blkaddr" 4
    ∷ field "cp_blkaddr" 4
    ∷ field "sit_blkaddr" 4
    ∷ field "nat_blkaddr" 4
    ∷ field "ssa_blkaddr" 4
    ∷ field "main_blkaddr" 4
    ∷ field "root_ino" 4
    ∷ field "node_ino" 4
    ∷ field "meta_ino" 4
    ∷ field "uuid" 16
    ∷ field "volume_name" 1024
    ∷ field "extension_count" 4
    ∷ field "extension_list" 512
    ∷ field "cp_payload" 4
    ∷ field "version" 256
    ∷ field "init_version" 256
    ∷ field "feature" 4
    ∷ field "encryption_level" 1
    ∷ field "encryption_pw_salt" 16
    ∷ field "devs" 544
    ∷ field "qf_ino" 12
    ∷ field "hot_ext_count" 1
    ∷ field "s_encoding" 2
    ∷ field "s_encoding_flags" 2
    ∷ field "s_stop_reason" 32
    ∷ field "s_errors" 16
    ∷ field "reserved" 258
    ∷ field "crc" 4
    ∷ []

abbrev pub magic : List ℕ
magic = le_bytes 4 0xF2F52010

abbrev pub start_position : ℕ
start_position = 1024

-- `impl Detection for F2FS`
abbrev pub f2fs : Format
f2fs = record {
  offset = start_position;
  magic_offset = start_position;
  magic_size = 4;
  is_valid_magic = λ m. bytes_eq m magic;
  fields = fields;
}
