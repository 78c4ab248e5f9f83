-- ===== src/Writer/Reached.antt =====
-- Writing what was planned: crates/partitioning/src/planner.rs and writer.rs together.
use disks_rs.Base.{ℕ, ◌*◌, ◌≤◌, ◌<◌, ◌≡◌, arith, some, List, [], ◌∷◌, All, done, true}
use disks_rs.Disks.{BlockDevice}
use disks_rs.Attributes.{PartitionAttributes}
use disks_rs.Planner.{Change, add_partition, delete_partition, Planner, Region, current_layout}
use disks_rs.Planner.Steps.{Reach}
use disks_rs.Planner.Usable.{IsWithin, Reach-IsWithin}
use disks_rs.Planner.Numbers.{IsNumbered}
use disks_rs.Writer.Changes.{Machine, zero_regions, open_table, apply_each}
use disks_rs.Writer.Validation.{validate_changes-IsNumbered}
use disks_rs.Writer.Answers.{device_size, IsAnswering}
use disks_rs.Writer.Progress.{IsOn, Ends, write-Ends}
use disks_rs.Base.{u64_mod}

zero_regions-IsOn :
    {A : Type 0} (lower upper size : ℕ) (cs : List (Change A))
    → upper ≤ size
    → All (IsWithin lower upper) cs
    → All (IsOn size) (zero_regions cs)
zero_regions-IsOn lower upper size [] h k = tt
zero_regions-IsOn lower upper size (add_partition s e id a ∷ cs) h (k, more) = (
  (omega (arith, k.0, k.1, k.2), omega (arith, k.0, k.1, k.2)),
  zero_regions-IsOn lower upper size cs h more,
)
zero_regions-IsOn lower upper size (delete_partition i id ∷ cs) h (k, more) =
    zero_regions-IsOn lower upper size cs h more

module _ {W T G U : Type 0} (m : Machine W T G) (r : IsAnswering m) where
  -- Take a machine that answers all calls, with a device of 2 MiB at least and of less than 2 ^ 64
  -- bytes, and a planner without pending changes whose usable range ends on the device. Whatever
  -- successful calls led from it to `q`, if the ids of `q` are numbered and its layout can be
  -- computed, then a write of `q` ends as applying the changes to the opened table does: with the
  -- same error, or with success, and then the first 2 MiB of each added partition, or all of a
  -- smaller one, are zero.
  pub write-Reach :
      (d : BlockDevice) (p q : Planner (PartitionAttributes G U))
      (l : List (Region (PartitionAttributes G U))) (w : W)
      → 2 * 1024 * 1024 ≤ device_size m w
      → device_size m w < u64_mod
      → p.usable_end ≤ device_size m w
      → p.changes ≡ []
      → Reach p q
      → IsNumbered q
      → current_layout q ≡ some l
      → (t : T) × (w1 w2 : W) × (open_table m q.wipe_disk d true w1 ≡ done t w2)
        × Ends m r d q w t (apply_each m q.changes t)
  write-Reach d p q l w room bounded ends none_left reached numbered laid =
      write-Ends m r d q l w room bounded (validate_changes-IsNumbered q numbered) laid (
        zero_regions-IsOn p.usable_start p.usable_end (device_size m w) q.changes ends
          (Reach-IsWithin p q none_left reached))
