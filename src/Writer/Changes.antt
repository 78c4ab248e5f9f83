-- ===== src/Writer/Changes.antt =====
-- Validating and applying the planned changes: crates/partitioning/src/writer.rs, `DiskWriter`, and
-- crates/partitioning/src/blkpg.rs. What the `gpt` crate, the file system and the kernel do is a
-- parameter: `W` is the state of the machine, `T` a GPT table, `G` a partition type.
use disks_rs.Base.{
  ℕ, ◌-◌, ◌/◌, String, Bool, true, false, Option, none, some, List, [], ◌∷◌, min, any, ◌==◌,
  keep_if, not, sub64, add64, mul64, if◌then◌else◌, Result, ok, err, Outcome, Exec, done, fail,
  panic, continue, lift, u32_mod,
}
use disks_rs.Disks
use disks_rs.Disks.{BlockDevice, BasicDisk, Partition}
use disks_rs.Attributes.{PartitionAttributes, as_gpt}
use disks_rs.Planner.{Change, add_partition, delete_partition, Planner, current_layout}
use disks_rs.Writer.Blkpg
use disks_rs.Writer.Blkpg.{BlkpgIoctl}
use disks_rs.Writer.{Store, IoError, sector_size, zero_disk_headers, zero_partition_prefix}

-- The sources of the errors are left out.
pub data WriteError : Type 0 where
  blkpg gpt mbr io_error : WriteError
  duplicate_partition_id : ℕ → WriteError

-- An entry of a GPT table: its number and its first and last block.
pub record Entry : Type 0 where
  pub number : ℕ
  pub first_lba : ℕ
  pub last_lba : ℕ

-- The operations that are not the program's own.
pub record Machine (W T G : Type 0) : Type 0 where
  -- `OpenOptions::new().read(true).write(writable).open(path)` and `File::flush`
  pub open_file : Bool → Exec WriteError W Unit
  -- The drop of the file that was opened last, at the end of its scope.
  pub close_file : W → W
  pub flush : Exec WriteError W Unit
  -- The device file's contents.
  pub store : W → Store
  pub put : Store → W → W
  -- `GptConfig::default().writable(..)`, then `create_from_device` or `open_from_device`
  pub create_from_device : Bool → Exec WriteError W T
  pub open_from_device : Bool → Exec WriteError W T
  pub write_inplace : T → Exec WriteError W T
  pub write : T → Exec WriteError W Unit
  pub sync_all : Exec WriteError W Unit
  -- `ProtectiveMBR::with_lb_size(..).overwrite_lba0(device)`
  pub overwrite_lba0 : ℕ → Exec WriteError W Unit
  -- name, id, first block, number of blocks, type
  pub add_partition_at : String → ℕ → ℕ → ℕ → G → T → Result WriteError T
  pub remove_partition : ℕ → T → T
  pub basic : G
  -- `BasicDisk::from_sysfs_path` on the device's name, the table on the device, and `libc::ioctl`
  -- on the device with BLKPG: whether the result is not negative.
  pub sysfs_disk : W → Option BasicDisk
  pub gpt_entries : W → Result WriteError (List Entry)
  pub ioctl : BlkpgIoctl → W → Bool × W

abbrev pub contains : ℕ → List ℕ → Bool
contains id used = any (λ u. u == id) used

module _ {A : Type 0} where
  -- The loop of `validate_changes` with the set of used ids.
  unfoldable pub validate : List ℕ → List (Change A) → Result WriteError Unit
  validate used [] = ok tt
  validate used (add_partition s e id a ∷ cs) =
      if contains id used then err (duplicate_partition_id id) else validate (id ∷ used) cs
  validate used (delete_partition i id ∷ cs) = validate (keep_if (λ u. not (u == id)) used) cs

  unfoldable pub validate_changes : Planner A → Result WriteError Unit
  unfolding validate
  validate_changes p = validate [] p.changes

  -- The regions to zero: the added ones, in order.
  abbrev pub zero_regions : List (Change A) → List (ℕ × ℕ)
  zero_regions [] = []
  zero_regions (add_partition s e id a ∷ cs) = (s, e) ∷ zero_regions cs
  zero_regions (delete_partition i id ∷ cs) = zero_regions cs

-- The protective MBR's size: the blocks but one, at most 2 ^ 32 - 1.
abbrev pub lb_size : BlockDevice → ℕ
lb_size device = min (Disks.size device / sector_size - 1) (u32_mod - 1)

-- `start_lba` and `size_lba` of an added partition.
unfoldable pub lba_range : ℕ → ℕ → ℕ × ℕ
lba_range start end = (start / sector_size, sub64 end start / sector_size)

module _ {W T G : Type 0} (m : Machine W T G) where
  -- An operation on the device's contents.
  abbrev pub on_store : Exec IoError Store Unit → Exec WriteError W Unit
  on_store f w = elim (f (m.store w)) [
    | done _ s ↦ done tt (m.put s w)
    | fail e s ↦ fail io_error (m.put s w)
    | panic ↦ panic
  ]

  -- What a scope comes to, with its file closed.
  abbrev pub dropped : Outcome WriteError W Unit → Outcome WriteError W Unit
  dropped (done a w) = done a (m.close_file w)
  dropped (fail e w) = fail e (m.close_file w)
  dropped panic = panic

  -- The scope of a file.
  abbrev pub with_file : Bool → Exec WriteError W Unit → Exec WriteError W Unit
  with_file writable rest w = continue (m.open_file writable w) (λ _ w1. dropped (rest w1))

  -- An error of blkpg.rs, as `?` converts it.
  abbrev pub as_blkpg : {E : Type 0} → Outcome E W Unit → Outcome WriteError W Unit
  as_blkpg (done _ w) = done tt w
  as_blkpg (fail e w) = fail blkpg w
  as_blkpg panic = panic

  -- The loop of `remove_kernel_partitions`, which ignores the result of each call.
  abbrev pub ignore : Outcome IoError W Unit → Exec WriteError W Unit → Outcome WriteError W Unit
  ignore (done _ w) rest = rest w
  ignore (fail e w) rest = rest w
  ignore panic rest = panic

  unfoldable pub delete_each : List Partition → Exec WriteError W Unit
  unfolding Blkpg.delete_partition
  delete_each [] w = done tt w
  delete_each (p ∷ ps) w = ignore (Blkpg.delete_partition m.ioctl p.number w) (delete_each ps)

  unfoldable pub remove_kernel_partitions : Exec WriteError W Unit
  unfolding delete_each
  remove_kernel_partitions w = as_blkpg (
      with_file false
        (λ w1. elim (m.sysfs_disk w1) [
          | none ↦ fail blkpg w1
          | some d ↦ delete_each d.partitions w1
        ])
        w)

  -- The casts to signed integers keep the bits, and so does the product with the block size.
  unfoldable pub add_each : List Entry → Exec WriteError W Unit
  unfolding Blkpg.add_partition
  add_each [] w = done tt w
  add_each (e ∷ es) w =
      continue
        (as_blkpg (
          Blkpg.add_partition m.ioctl e.number (mul64 e.first_lba 512)
            (mul64 (add64 (sub64 e.last_lba e.first_lba) 1) 512) w))
        (λ _. add_each es)

  unfoldable pub create_kernel_partitions : Exec WriteError W Unit
  unfolding add_each
  create_kernel_partitions w = as_blkpg (
      with_file false (λ w1. continue (lift (m.gpt_entries w1) w1) (λ entries. add_each entries)) w)

  unfoldable pub sync_gpt_partitions : Exec WriteError W Unit
  unfolding remove_kernel_partitions create_kernel_partitions
  sync_gpt_partitions w = continue (remove_kernel_partitions w) (λ _. create_kernel_partitions)

  abbrev pub zero_each : List (ℕ × ℕ) → Exec WriteError W Unit
  zero_each [] w = done tt w
  zero_each (r ∷ rs) w =
      continue (on_store (zero_partition_prefix r.0 (sub64 r.1 r.0)) w) (λ _. zero_each rs)

  -- Opening or creating the table.
  unfoldable pub open_table : Bool → BlockDevice → Bool → Exec WriteError W T
  open_table false device writable w = m.open_from_device writable w
  open_table true device false w = m.create_from_device false w
  open_table true device true w = continue (on_store zero_disk_headers w) (λ _ w1.
      continue (m.overwrite_lba0 (lb_size device) w1)
        (λ _ w2. continue (m.create_from_device true w2) (λ t. m.write_inplace t)))

  -- What follows the changes to the table.
  unfoldable pub commit : T → List (ℕ × ℕ) → Exec WriteError W Unit
  unfolding create_kernel_partitions
  commit t regions w = continue (m.write t w) (λ _ w1.
      continue (m.sync_all w1)
        (λ _ w2. continue (zero_each regions w2) (λ _. create_kernel_partitions)))

module _ {W T G U : Type 0} (m : Machine W T G) where
  -- The type and the name of an added partition.
  abbrev pub type_and_name : Option (PartitionAttributes G U) → G × String
  type_and_name none = (m.basic, "")
  type_and_name (some a) = elim (as_gpt a.table) [
    | none ↦ (m.basic, "")
    | some g ↦ (g.type_guid, elim g.name [ none ↦ "" | some n ↦ n ])
  ]

  -- One change in the table, with its first block and its number of blocks.
  unfoldable pub apply_change : Change (PartitionAttributes G U) → T → Result WriteError T
  unfolding lba_range
  apply_change (delete_partition index id) t = ok (m.remove_partition id t)
  apply_change (add_partition start end id attributes) t =
      let (part_type, part_name) = type_and_name attributes in
      let (start_lba, size_lba) = lba_range start end in
      m.add_partition_at part_name id start_lba size_lba part_type t

  unfoldable pub apply_each : List (Change (PartitionAttributes G U)) → T → Result WriteError T
  unfolding apply_change
  apply_each [] t = ok t
  apply_each (c ∷ cs) t = elim (apply_change c t) [ err e ↦ err e | ok t' ↦ apply_each cs t' ]

  unfoldable pub apply_changes :
      BlockDevice → Planner (PartitionAttributes G U) → Bool → Exec WriteError W Unit
  unfolding remove_kernel_partitions open_table apply_each commit
  apply_changes device p writable w =
      continue (if writable then remove_kernel_partitions m w else done tt w) (λ _ w1.
        continue (open_table m p.wipe_disk device writable w1) (λ t w2. elim (current_layout p) [
          | none ↦ panic
          | some layout ↦
              continue (lift (apply_each p.changes t) w2)
                (λ t' w3. if writable then commit m t' (zero_regions p.changes) w3 else done tt w3)
        ]))

  unfoldable pub simulate : BlockDevice → Planner (PartitionAttributes G U) → Exec WriteError W Unit
  unfolding validate_changes apply_changes
  simulate device p w =
      with_file m false
        (λ w1. continue (lift (validate_changes p) w1) (λ _ w2. apply_changes device p false w2)) w

  unfoldable pub write : BlockDevice → Planner (PartitionAttributes G U) → Exec WriteError W Unit
  unfolding validate_changes apply_changes
  write device p w =
      with_file m true
        (λ w1.
          continue (lift (validate_changes p) w1)
            (λ _ w2. continue (apply_changes device p true w2) (λ _. m.flush)))
        w
