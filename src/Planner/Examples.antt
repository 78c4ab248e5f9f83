-- ===== src/Planner/Examples.antt =====
-- The theorems on the planner at concrete disks.
use disks_rs.Base.{
  ℕ, ◌+◌, ◌*◌, ◌≡◌, ◌↔◌, refl, arith, inl, true, false, none, some, List, [], ◌∷◌, done, length,
  All, add32, mul64,
}
use disks_rs.Disks.{Partition, BlockDevice, mock_device, new_mock, root_dir, add_partition}
use disks_rs.Planner.{
  Change, Planner, Region, plan_add_partition_with_attributes, plan_delete_partition, undo,
  current_layout, layout_of, place, new, aligned_start, aligned_end,
}
use disks_rs.Sizing.{is_aligned, align_up, align_down}
use disks_rs.Planner.Adding.{Accepts, planned, plan_add_iff}
use disks_rs.Planner.History.{IsDisjoint}
use disks_rs.Planner.Steps.{add, here, next, Reach-IsDisjoint}
use disks_rs.Planner.Usable.{IsWithin, Reach-IsWithin}
use disks_rs.Planner.Numbers.{IsNumbered, Step-IsNumbered}
use disks_rs.Planner.Undo.{undo-plan_add}
use disks_rs.Planner.Hazards.{plan_delete_twice, new-accepts_occupied}

abbrev pub mb : ℕ
mb = 1024 * 1024

abbrev pub region : ℕ → ℕ → ℕ → Region ℕ
region start end id = record { start = start; end = end; partition_id = some id; attributes = none }

-- Two partitions on 16 MiB.
abbrev pub two_partitions : Planner ℕ
two_partitions = record {
  usable_start = mb;
  usable_end = 16 * mb;
  changes = [];
  original_regions = region mb (4 * mb) 1 ∷ region (8 * mb) (9 * mb) 2 ∷ [];
  original_partition_ids = 1 ∷ 2 ∷ [];
  next_partition_id = 3;
  wipe_disk = false;
}

-- After an addition in the gap.
abbrev pub added : Planner ℕ
added = planned (4 * mb) (8 * mb) (some 7) two_partitions

add_gap :
    plan_add_partition_with_attributes (4 * mb) (8 * mb) (some 7) two_partitions ≡ done tt added
unfolding plan_add_partition_with_attributes is_aligned align_up align_down place layout_of
add_gap = refl

abbrev pub deleted : Planner ℕ
deleted = record two_partitions { changes = Change.delete_partition 0 1 ∷ [] }

delete_first : plan_delete_partition 0 two_partitions ≡ done tt deleted
unfolding plan_delete_partition
delete_first = refl

plan_add_iff_example :
    (plan_add_partition_with_attributes (4 * mb) (8 * mb) (some 7) two_partitions ≡ done tt added)
    ↔ (Accepts (4 * mb) (8 * mb) two_partitions
        × (added
            ≡ planned
                (aligned_start (4 * mb) two_partitions)
                (aligned_end (8 * mb) two_partitions)
                (some 7)
                two_partitions))
plan_add_iff_example = plan_add_iff (4 * mb) (8 * mb) (some 7) two_partitions added

Reach-IsDisjoint_example : IsDisjoint (
    region mb (4 * mb) 1
    ∷ region (8 * mb) (9 * mb) 2
    ∷ record { start = 4 * mb; end = 8 * mb; partition_id = some 3; attributes = some 7 }
    ∷ [])
unfolding layout_of
Reach-IsDisjoint_example =
    Reach-IsDisjoint two_partitions added _ refl ((inl (omega arith), tt), (tt, tt))
      (next here (add (4 * mb) (8 * mb) (some 7) add_gap)) refl

Reach-IsWithin_example : All (IsWithin mb (16 * mb)) added.changes
Reach-IsWithin_example =
    Reach-IsWithin two_partitions added refl (next here (add (4 * mb) (8 * mb) (some 7) add_gap))

Step-IsNumbered_example : IsNumbered added
Step-IsNumbered_example =
    Step-IsNumbered two_partitions added (omega arith) (add (4 * mb) (8 * mb) (some 7) add_gap)
      (record { rising = tt; below = tt; originals = (omega arith, (omega arith, tt)) })

undo-plan_add_example : undo added ≡ (record two_partitions { next_partition_id = 4 }, true)
unfolding add32
undo-plan_add_example = undo-plan_add (4 * mb) (8 * mb) (some 7) two_partitions added add_gap

abbrev pub deleted_twice : Planner ℕ
deleted_twice = record two_partitions {
  changes = Change.delete_partition 0 1 ∷ Change.delete_partition 0 1 ∷ [];
}

delete_again : plan_delete_partition 0 deleted ≡ done tt deleted_twice
unfolding plan_delete_partition
delete_again = refl

plan_delete_twice_example :
    (l : List (Region ℕ)) × (current_layout deleted_twice ≡ some l)
    × (length l + 2 ≡ length two_partitions.original_regions)
plan_delete_twice_example =
    plan_delete_twice 0 two_partitions deleted deleted_twice refl delete_first delete_again
      (omega arith)

-- A disk of 64 MiB with one partition.
abbrev pub occupied : BlockDevice
occupied = mock_device (add_partition (8 * mb) (10 * mb) (new_mock (64 * mb)))

new-accepts_occupied_example :
    plan_add_partition_with_attributes {A = ℕ} (8 * mb) (10 * mb) (some 7) (new occupied)
    ≡ done tt (planned (8 * mb) (10 * mb) (some 7) (new occupied))
unfolding mock_device add_partition new_mock disks_rs.Disks.partitions disks_rs.Disks.size mul64
    is_aligned
new-accepts_occupied_example =
    new-accepts_occupied occupied _ (some 7) refl refl refl (omega arith) (omega arith)
      (omega arith)
