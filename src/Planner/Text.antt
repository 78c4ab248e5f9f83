-- ===== src/Planner/Text.antt =====
-- Regions and changes for people: crates/partitioning/src/planner.rs, `describe` and
-- `describe_changes`.
use disks_rs.Base.{ℕ, ◌+◌, ◌≡◌, refl, String, none, List, [], ◌∷◌, sub64, true}
use disks_rs.Base.Text.{concat, concat_all, decimal}
use disks_rs.Sizing.Text.{format_size, format_position}
use disks_rs.Planner.{
  PlanError, region_overlap, region_out_of_bounds, no_free_regions, Change, add_partition,
  delete_partition, Region, new_region, size, Planner, usable_size,
}

-- `Display for PlanError`
unfoldable pub plan_error_to_string : PlanError → String
plan_error_to_string (region_overlap start end) =
    concat_all
      ("Region " ∷ decimal start ∷ ".." ∷ decimal end ∷ " overlaps with existing partition" ∷ [])
plan_error_to_string (region_out_of_bounds start end) =
    concat_all ("Region " ∷ decimal start ∷ ".." ∷ decimal end ∷ " exceeds disk bounds" ∷ [])
plan_error_to_string no_free_regions = "No free regions available"

module _ {A : Type 0} where
  -- `Region::describe`
  unfoldable pub describe_region : ℕ → Region A → String
  unfolding size
  describe_region disk_size r = concat_all (
      format_size (size r)
      ∷ " at "
      ∷ format_position r.start disk_size
      ∷ ".."
      ∷ format_position r.end disk_size
      ∷ [])

  -- `Change::describe`
  unfoldable pub describe_change : ℕ → Change A → String
  unfolding describe_region
  describe_change disk_size (add_partition start end id attributes) = concat_all (
      "Add new partition #"
      ∷ decimal id
      ∷ ": "
      ∷ format_size (sub64 end start)
      ∷ " ("
      ∷ describe_region disk_size (new_region start end)
      ∷ " at "
      ∷ format_position start disk_size
      ∷ ")"
      ∷ [])
  describe_change disk_size (delete_partition index id) =
      concat_all ("Delete partition #" ∷ decimal id ∷ " (index " ∷ decimal (index + 1) ∷ ")" ∷ [])

  -- The lines of the loop, which begin with the changes' numbers.
  abbrev pub change_lines : ℕ → ℕ → List (Change A) → String
  change_lines disk_size i [] = ""
  change_lines disk_size i (c ∷ cs) =
      concat (concat_all ("  " ∷ decimal i ∷ ": " ∷ describe_change disk_size c ∷ "\n" ∷ []))
        (change_lines disk_size (i + 1) cs)

  -- `Planner::describe_changes`
  unfoldable pub describe_changes : Planner A → String
  unfolding describe_change
  describe_changes p = elim p.changes [
    | [] ↦ "No pending changes"
    | c ∷ cs ↦ concat "Pending changes:\n" (change_lines (usable_size p) 1 (c ∷ cs))
  ]

-- The second partition of a disk whose usable range starts behind the first MiB.
described :
    describe_changes {A = ℕ} (record {
      usable_start = 1048576;
      usable_end = 5242880;
      changes = Change.delete_partition 0 1 ∷ Change.add_partition 3145728 5242880 2 none ∷ [];
      original_regions = [];
      original_partition_ids = [];
      next_partition_id = 3;
      wipe_disk = true;
    })
    ≡ "Pending changes:\n  1: Delete partition #1 (index 1)\n  2: Add new partition #2: 2.0MiB (2.0MiB at 75% (3.0MiB)..125% (5.0MiB) at 75% (3.0MiB))\n"
unfolding describe_changes size sub64 decimal format_size format_position
described = refl
