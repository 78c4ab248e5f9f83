-- ===== src/Writer/TableExamples.antt =====
-- The theorems on tables and on the kernel's partitions at concrete machines.
use disks_rs.Base.{
  ℕ, sub64, ◌≡◌, ◌≢◌, refl, arith, true, false, Option, none, some, List, [], ◌∷◌, ◌++◌, All, ok,
  done, ◌==◌, if◌then◌else◌,
}
use mathlib.Core.List.{map}
use disks_rs.Disks.{BasicDisk, dev_path, mock_device, new_mock}
use disks_rs.Attributes.{PartitionAttributes}
use disks_rs.Planner.{Change, Planner, layout_of}
use disks_rs.Writer.{zero_partition_prefix}
use disks_rs.Writer.Blkpg.{BlkpgIoctl}
use disks_rs.Writer.Changes.{
  Machine, open_table, Entry, validate_changes, write, sync_gpt_partitions,
}
use disks_rs.Writer.Table.{IsTable, id_of, wanted, write-wanted}
use disks_rs.Writer.Kernel.{IsRecording, deletion, addition, sync_gpt_partitions-calls}

abbrev pub Blocks : Type 0
Blocks = List (ℕ × (ℕ × ℕ))

abbrev pub look : Blocks → ℕ → Option (ℕ × ℕ)
look [] j = none
look (e ∷ t) j = let rest = look t j in if e.0 == j then some e.1 else rest

abbrev pub without : ℕ → Blocks → Blocks
without id [] = []
without id (e ∷ t) = let rest = without id t in if e.0 == id then rest else e ∷ rest

pub look-without :
    (id : ℕ) (t : Blocks) (j : ℕ) → look (without id t) j ≡ (if id == j then none else look t j)
look-without id [] j = ground arith
look-without id (e ∷ t) j = ground (arith, look-without id t j)

-- The disk that the kernel knows, with one partition.
abbrev pub known : BasicDisk
known = record {
  name = "sda";
  sectors = 8192;
  device = dev_path "sda";
  model = none;
  vendor = none;
  partitions =
      record {
        name = "sda1";
        number = 1;
        start = 34;
        end = 134;
        size = 100;
        node = [];
        device = dev_path "sda1";
      }
      ∷ [];
}

abbrev pub entries : List Entry
entries = record { number = 1; first_lba = 2048; last_lba = 4095 } ∷ []

-- A machine that records the calls, with tables as lists of blocks.
abbrev machine : Machine (List BlkpgIoctl) Blocks ℕ
machine = record {
  open_file = λ w s. done tt s;
  close_file = λ s. s;
  flush = λ s. done tt s;
  store = λ s. record { size = 4194304; byte = λ i. 1; position = 0 };
  put = λ t s. s;
  create_from_device = λ w s. done [] s;
  open_from_device = λ w s. done ((1, (34, 100)) ∷ []) s;
  write_inplace = λ t s. done t s;
  write = λ t s. done tt s;
  sync_all = λ s. done tt s;
  overwrite_lba0 = λ n s. done tt s;
  add_partition_at = λ name id start size type t. ok ((id, (start, size)) ∷ t);
  remove_partition = without;
  basic = 0;
  sysfs_disk = λ s. some known;
  gpt_entries = λ s. ok entries;
  ioctl = λ x s. (true, s ++ x ∷ []);
}

machine-IsTable : IsTable machine look
machine-IsTable = record {
  look-add = λ name id start count type t u h j. ground arith;
  look-remove = look-without;
}

machine-IsRecording : IsRecording machine (λ w. w) known entries
machine-IsRecording = record {
  opened = λ w. (w, refl, refl);
  closed = λ w. refl;
  answered = λ x w. refl;
  recorded = λ x w. refl;
  disk_read = λ w. refl;
  table_read = λ w. refl;
}

sync_gpt_partitions-calls_example :
    (v : List BlkpgIoctl) × (sync_gpt_partitions machine [] ≡ done tt v)
    × (v ≡ ([] ++ map deletion known.partitions) ++ map addition entries)
sync_gpt_partitions-calls_example =
    sync_gpt_partitions-calls machine (λ w. w) known entries machine-IsRecording []
      ((omega arith, omega arith), tt)

-- The partition 1 is deleted and two are added.
abbrev changed : Planner (PartitionAttributes ℕ ℕ)
changed = record {
  usable_start = 0;
  usable_end = 4194304;
  changes =
      Change.delete_partition 0 1
      ∷ Change.add_partition 0 1048576 3 none
      ∷ Change.add_partition 1048576 2097152 4 none
      ∷ [];
  original_regions =
      record { start = 0; end = 1048576; partition_id = some 1; attributes = none } ∷ [];
  original_partition_ids = 1 ∷ [];
  next_partition_id = 5;
  wipe_disk = false;
}

changed-written :
    (v : List BlkpgIoctl) × (write machine (mock_device (new_mock 4194304)) changed [] ≡ done tt v)
unfolding write layout_of zero_partition_prefix sub64
changed-written = (_, refl)

write-wanted_example :
    (validate_changes changed ≡ ok tt)
    × (t u : Blocks) × (w1 w2 v : List BlkpgIoctl) × (open_table machine false
          (mock_device (new_mock 4194304))
          true
          w1
        ≡ done t w2)
    × (machine.write u w2 ≡ done tt v)
    × All (λ c. look u (id_of c) ≡ wanted c) changed.changes
    × ((j : ℕ) → All (λ c. id_of c ≢ j) changed.changes → look u j ≡ look t j)
write-wanted_example =
    write-wanted machine look (mock_device (new_mock 4194304)) changed [] changed-written.0
      machine-IsTable ((omega arith, (omega arith, tt)), ((omega arith, tt), (tt, tt)))
      changed-written.1
