-- ===== src/Writer/Examples.antt =====
-- The theorems on the writer at concrete devices.
use disks_rs.Base.{
  ℕ, ◌+◌, ◌*◌, ◌≤◌, ◌<◌, ◌≡◌, ◌⊎◌, arith, min, true, false, none, some, List, [], ◌∷◌, ok, done,
}
use disks_rs.Attributes.{PartitionAttributes}
use disks_rs.Planner.{Change, Planner}
use disks_rs.Writer.{Store, zero_partition_prefix}
use disks_rs.Writer.Changes.{Machine}
use disks_rs.Writer.Zeroing.{Zeroes, zero_partition_prefix-Zeroes}

-- A device of 4 MiB of ones.
abbrev ones : Store
ones = record { size = 4 * 1024 * 1024; byte = λ i. 1; position = 0 }

zero_partition_prefix_example :
    (t : Store) × (zero_partition_prefix 1048576 3000000 ones ≡ done tt t)
    × Zeroes 1048576 (min 3000000 (2 * 1024 * 1024)) ones t
    × ((i : ℕ) → i < 1048576 ⊎ 1048576 + 3000000 ≤ i → t.byte i ≡ ones.byte i)
zero_partition_prefix_example = zero_partition_prefix-Zeroes 1048576 3000000 ones (omega arith)

abbrev changed : Planner (PartitionAttributes ℕ ℕ)
changed = record {
  usable_start = 0;
  usable_end = 4194304;
  changes =
      Change.delete_partition 0 1
      ∷ Change.add_partition 0 1048576 3 none
      ∷ Change.add_partition 1048576 2097152 4 none
      ∷ [];
  original_regions =
      record { start = 0; end = 1048576; partition_id = some 1; attributes = none } ∷ [];
  original_partition_ids = 1 ∷ [];
  next_partition_id = 5;
  wipe_disk = false;
}

-- A machine whose state is the device alone and whose table is the list of its ids.
abbrev machine : Machine Store (List ℕ) ℕ
machine = record {
  open_file = λ w s. done tt s;
  close_file = λ s. s;
  flush = λ s. done tt s;
  store = λ s. s;
  put = λ s t. s;
  create_from_device = λ w s. done [] s;
  open_from_device = λ w s. done (1 ∷ []) s;
  write_inplace = λ t s. done t (record s { byte = λ i. 2 });
  write = λ t s. done tt (record s { byte = λ i. 2 });
  sync_all = λ s. done tt s;
  overwrite_lba0 = λ n s. done tt (record s { byte = λ i. 3 });
  add_partition_at = λ name id start size type t. ok (id ∷ t);
  remove_partition = λ id t. t;
  basic = 0;
  sysfs_disk = λ s. none;
  gpt_entries = λ s. ok [];
  ioctl = λ x s. (true, s);
}
