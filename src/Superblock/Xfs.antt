-- ===== src/Superblock/Xfs.antt =====
-- The XFS superblock: crates/superblock/src/xfs.rs. The fields add up to a multiple of the struct's
-- alignment, 8, so that it has no padding.
use disks_rs.Base.{ℕ, List, [], ◌∷◌}
use disks_rs.Superblock.Format.{Field, field, Format, be_bytes, bytes_eq}

abbrev pub fields : List Field
fields =
    field "magicnum" 4
    ∷ field "blocksize" 4
    ∷ field "dblocks" 8
    ∷ field "rblocks" 8
    ∷ field "rextents" 8
    ∷ field "uuid" 16
    ∷ field "logstart" 8
    ∷ field "rootino" 8
    ∷ field "rbmino" 8
    ∷ field "rsumino" 8
    ∷ field "rextsize" 4
    ∷ field "agblocks" 4
    ∷ field "agcount" 4
    ∷ field "rbmblocks" 4
    ∷ field "logblocks" 4
    ∷ field "versionnum" 2
    ∷ field "sectsize" 2
    ∷ field "inodesize" 2
    ∷ field "inopblock" 2
    ∷ field "fname" 12
    ∷ field "blocklog" 1
    ∷ field "sectlog" 1
    ∷ field "inodelog" 1
    ∷ field "inopblog" 1
    ∷ field "agblklog" 1
    ∷ field "rextslog" 1
    ∷ field "inprogress" 1
    ∷ field "imax_pct" 1
    ∷ field "icount" 8
    ∷ field "ifree" 8
    ∷ field "fdblocks" 8
    ∷ field "frextents" 8
    ∷ field "uquotino" 8
    ∷ field "gquotino" 8
    ∷ field "qflags" 2
    ∷ field "flags" 1
    ∷ field "shared_vn" 1
    ∷ field "inoalignment" 4
    ∷ field "unit" 4
    ∷ field "width" 4
    ∷ field "dirblklog" 1
    ∷ field "logsectlog" 1
    ∷ field "logsectsize" 2
    ∷ field "logsunit" 4
    ∷ field "features2" 4
    ∷ field "bad_features" 4
    ∷ field "features_compat" 4
    ∷ field "features_ro_cmopat" 4
    ∷ field "features_incompat" 4
    ∷ field "features_log_incompat" 4
    ∷ field "crc" 4
    ∷ field "spino_align" 4
    ∷ field "pquotino" 8
    ∷ field "lsn" 8
    ∷ field "meta_uuid" 16
    ∷ []

abbrev pub magic : List ℕ
magic = be_bytes 4 0x58465342

-- `impl Detection for Xfs`
abbrev pub xfs : Format
xfs = record {
  offset = 0;
  magic_offset = 0;
  magic_size = 4;
  is_valid_magic = λ m. bytes_eq m magic;
  fields = fields;
}
