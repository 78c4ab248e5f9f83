-- ===== src/Writer/Blkpg.antt =====
-- The kernel's view of partitions, one call at a time: crates/partitioning/src/blkpg.rs. A signed
-- number is kept as its bits. `libc::ioctl` on the device with BLKPG is a parameter, which says
-- whether the result is not negative.
use disks_rs.Base.{ℕ, Bool, true, false, List, replicate, Outcome, Exec, done, fail}
use disks_rs.Writer.{IoError, os}

pub record BlkpgPartition : Type 0 where
  pub start : ℕ
  pub length : ℕ
  pub pno : ℕ
  pub devname : List ℕ
  pub volname : List ℕ

-- The pointer is the partition that it points to.
pub record BlkpgIoctl : Type 0 where
  pub op : ℕ
  pub flags : ℕ
  pub datalen : ℕ
  pub part : BlkpgPartition

abbrev pub blkpg_add_partition : ℕ
blkpg_add_partition = 1

abbrev pub blkpg_del_partition : ℕ
blkpg_del_partition = 2

-- `size_of::<BlkpgPartition>()` under `repr(C)`: 148 bytes, to a multiple of eight.
abbrev pub partition_size : ℕ
partition_size = 152

unfoldable pub request : ℕ → ℕ → ℕ → ℕ → BlkpgIoctl
request op number start length = record {
  op = op;
  flags = 0;
  datalen = partition_size;
  part = record {
    start = start;
    length = length;
    pno = number;
    devname = replicate 64 0;
    volname = replicate 64 0;
  };
}

module _ {W : Type 0} where
  -- What the answer to a call comes to.
  abbrev pub answer : Bool → W → Outcome IoError W Unit
  answer true w = done tt w
  answer false w = fail os w

module _ {W : Type 0} (ioctl : BlkpgIoctl → W → Bool × W) where
  unfoldable pub add_partition : ℕ → ℕ → ℕ → Exec IoError W Unit
  unfolding request
  add_partition number start length w =
      let (answered, w') = ioctl (request blkpg_add_partition number start length) w in
      answer answered w'

  unfoldable pub delete_partition : ℕ → Exec IoError W Unit
  unfolding request
  delete_partition number w =
      let (answered, w') = ioctl (request blkpg_del_partition number 0 0) w in answer answered w'
