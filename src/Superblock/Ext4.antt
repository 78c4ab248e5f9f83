-- ===== src/Superblock/Ext4.antt =====
-- The ext4 superblock: crates/superblock/src/ext4.rs.
use disks_rs.Base.{ℕ, ◌+◌, List, [], ◌∷◌}
use disks_rs.Superblock.Format.{Field, field, Format, le_bytes, bytes_eq}

abbrev pub fields : List Field
fields =
    field "inodes_count" 4
    ∷ field "block_counts_lo" 4
    ∷ field "r_blocks_count_lo" 4
    ∷ field "free_blocks_count_lo" 4
    ∷ field "free_inodes_count" 4
    ∷ field "first_data_block" 4
    ∷ field "log_block_size" 4
    ∷ field "log_cluster_size" 4
    ∷ field "blocks_per_group" 4
    ∷ field "clusters_per_group" 4
    ∷ field "inodes_per_group" 4
    ∷ field "m_time" 4
    ∷ field "w_time" 4
    ∷ field "mnt_count" 2
    ∷ field "max_mnt_count" 2
    ∷ field "magic" 2
    ∷ field "state" 2
    ∷ field "errors" 2
    ∷ field "minor_rev_level" 2
    ∷ field "lastcheck" 4
    ∷ field "checkinterval" 4
    ∷ field "creator_os" 4
    ∷ field "rev_level" 4
    ∷ field "def_resuid" 2
    ∷ field "def_resgid" 2
    ∷ field "first_ino" 4
    ∷ field "inode_size" 2
    ∷ field "block_group_nr" 2
    ∷ field "feature_compat" 4
    ∷ field "feature_incompat" 4
    ∷ field "feature_ro_compat" 4
    ∷ field "uuid" 16
    ∷ field "volume_name" 16
    ∷ field "last_mounted" 64
    ∷ field "algorithm_usage_bitmap" 4
    ∷ field "prealloc_blocks" 1
    ∷ field "prealloc_dir_blocks" 1
    ∷ field "reserved_gdt_blocks" 2
    ∷ field "journal_uuid" 16
    ∷ field "journal_inum" 4
    ∷ field "journal_dev" 4
    ∷ field "last_orphan" 4
    ∷ field "hash_seed" 16
    ∷ field "def_hash_version" 1
    ∷ field "jnl_backup_type" 1
    ∷ field "desc_size" 2
    ∷ field "default_mount_opts" 4
    ∷ field "first_meta_bg" 4
    ∷ field "mkfs_time" 4
    ∷ field "jnl_blocks" 68
    ∷ field "blocks_count_hi" 4
    ∷ field "free_blocks_count_hi" 4
    ∷ field "min_extra_isize" 2
    ∷ field "want_extra_isize" 2
    ∷ field "flags" 4
    ∷ field "raid_stride" 2
    ∷ field "mmp_update_interval" 2
    ∷ field "mmp_block" 8
    ∷ field "raid_stripe_width" 4
    ∷ field "log_groups_per_flex" 1
    ∷ field "checksum_type" 1
    ∷ field "reserved_pad" 2
    ∷ field "kbytes_written" 8
    ∷ field "snapshot_inum" 4
    ∷ field "snapshot_id" 4
    ∷ field "snapshot_r_blocks_count" 8
    ∷ field "snapshot_list" 4
    ∷ field "error_count" 4
    ∷ field "first_error_time" 4
    ∷ field "first_error_inod" 4
    ∷ field "first_error_block" 8
    ∷ field "first_error_func" 32
    ∷ field "first_error_line" 4
    ∷ field "last_error_time" 4
    ∷ field "last_error_inod" 4
    ∷ field "last_error_line" 4
    ∷ field "last_error_block" 8
    ∷ field "last_error_func" 32
    ∷ field "mount_opts" 64
    ∷ field "usr_quota_inum" 4
    ∷ field "grp_quota_inum" 4
    ∷ field "overhead_clusters" 4
    ∷ field "reserved" 432
    ∷ field "checksum" 4
    ∷ []

abbrev pub magic : List ℕ
magic = le_bytes 2 0xEF53

abbrev pub start_position : ℕ
start_position = 1024

-- `impl Detection for Ext4`
abbrev pub ext4 : Format
ext4 = record {
  offset = start_position;
  magic_offset = start_position + 0x38;
  magic_size = 2;
  is_valid_magic = λ m. bytes_eq m magic;
  fields = fields;
}
