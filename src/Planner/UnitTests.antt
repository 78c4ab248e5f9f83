-- ===== src/Planner/UnitTests.antt =====
-- The planner's own tests, run: crates/partitioning/src/planner.rs, `mod tests`. An assertion that
-- fails, and a panic, is `none`.
use disks_rs.Base.{
  ℕ, ◌+◌, ◌-◌, ◌*◌, ◌≡◌, refl, Bool, true, false, ◌&&◌, not, Option, none, some, List, [], ◌∷◌,
  length, get_elem?, Exec, Outcome, done, fail, panic, ◌==◌, if◌then◌else◌,
}
use disks_rs.Disks.{MockDisk, new_mock, mock_device}
use disks_rs.Disks
use disks_rs.Sizing.{align_up, align_down}
use disks_rs.Planner.{
  PlanError, region_overlap, region_out_of_bounds, no_free_regions, Planner, Region, size, new,
  partition_alignment, current_layout, plan_add_partition, plan_delete_partition, undo,
  plan_initialize_disk,
}

-- One line of a test on the planner.
abbrev pub Line : Type 0
Line = Planner ℕ → Option (Planner ℕ)

abbrev pub is_ok : Exec PlanError (Planner ℕ) Unit → Line
is_ok call p = elim (call p) [ done _ q ↦ some q | fail e q ↦ none | panic ↦ none ]

-- `assert!(matches!(…))`
abbrev pub failed : (PlanError → Bool) → Exec PlanError (Planner ℕ) Unit → Line
failed is_expected call p = elim (call p) [
  | done _ q ↦ none
  | fail e q ↦ if is_expected e then some q else none
  | panic ↦ none
]

abbrev pub is_out_of_bounds : PlanError → Bool
is_out_of_bounds (region_out_of_bounds start end) = true
is_out_of_bounds (region_overlap start end) = false
is_out_of_bounds no_free_regions = false

abbrev pub is_overlap : PlanError → Bool
is_overlap (region_out_of_bounds start end) = false
is_overlap (region_overlap start end) = true
is_overlap no_free_regions = false

-- An assertion about the planner, and one about its layout.
abbrev pub asserts : (Planner ℕ → Bool) → Line
asserts f p = if f p then some p else none

abbrev pub of_layout : (List (Region ℕ) → Bool) → Planner ℕ → Bool
of_layout f p = elim (current_layout p) [ none ↦ false | some l ↦ f l ]

abbrev pub has_length : ℕ → List (Region ℕ) → Bool
has_length n l = length l == n

-- An assertion about `layout[index]`.
abbrev pub at : ℕ → (Region ℕ → Bool) → List (Region ℕ) → Bool
at index f l = elim (get_elem? l index) [ none ↦ false | some r ↦ f r ]

abbrev pub passes : Planner ℕ → List Line → Bool
passes p [] = true
passes p (l ∷ ls) = elim (l p) [ none ↦ false | some q ↦ passes q ls ]

abbrev pub mb : ℕ
mb = 1024 * 1024

abbrev pub gb : ℕ
gb = 1024 * mb

abbrev pub planner_on : MockDisk → Planner ℕ
planner_on d = new (mock_device d)

abbrev pub create_mock_disk : MockDisk
create_mock_disk = new_mock (500 * gb)

abbrev pub with_partition : ℕ → ℕ → MockDisk → MockDisk
with_partition start end d = Disks.add_partition start end d

abbrev pub create_windows_disk : MockDisk
create_windows_disk = with_partition (200 * gb + 116 * mb) (200 * gb + 616 * mb) (
    with_partition (116 * mb) (200 * gb + 116 * mb)
      (with_partition (100 * mb) (116 * mb) (with_partition 0 (100 * mb) (new_mock (500 * gb)))))

abbrev added : ℕ → ℕ → Line
added start end = is_ok (plan_add_partition start end)

abbrev deleted : ℕ → Line
deleted index = is_ok (plan_delete_partition index)

-- `assert!(planner.undo())`, or its negation.
abbrev undone : Bool → Line
undone expected p =
    let (q, b) = undo p in
    if expected then if b then some q else none else if b then none else some q

abbrev test_fresh_installation : Bool
test_fresh_installation = passes (planner_on create_mock_disk) (
    added 0 (512 * mb)
    ∷ added (512 * mb) (4 * gb + 512 * mb)
    ∷ added (4 * gb + 512 * mb) (500 * gb)
    ∷ asserts (of_layout (has_length 3))
    ∷ asserts (of_layout (at 0 (λ r. size r == 512 * mb)))
    ∷ asserts (of_layout (at 1 (λ r. size r == 4 * gb)))
    ∷ [])

abbrev test_dual_boot_with_windows : Bool
test_dual_boot_with_windows = passes (planner_on create_windows_disk) (
    added (200 * gb + 616 * mb) (200 * gb + 616 * mb + 4 * gb)
    ∷ added (200 * gb + 616 * mb + 4 * gb) (500 * gb)
    ∷ asserts (of_layout (has_length 6))
    ∷ [])

abbrev test_replace_linux : Bool
test_replace_linux =
    passes
      (planner_on (
        with_partition (4 * gb + 512 * mb) (500 * gb) (
          with_partition (512 * mb) (4 * gb + 512 * mb)
            (with_partition 0 (512 * mb) create_mock_disk))))
      (deleted 1
        ∷ deleted 2
        ∷ added (512 * mb) (8 * gb + 512 * mb)
        ∷ added (8 * gb + 512 * mb) (500 * gb)
        ∷ asserts (of_layout (has_length 3))
        ∷ asserts (of_layout (at 1 (λ r. size r == 8 * gb)))
        ∷ [])

abbrev test_region_validation : Bool
test_region_validation = passes (planner_on create_mock_disk) (
    failed is_out_of_bounds (plan_add_partition 0 (600 * gb))
    ∷ added 0 (100 * gb)
    ∷ failed is_overlap (plan_add_partition (50 * gb) (150 * gb))
    ∷ [])

abbrev test_undo_operations : Bool
test_undo_operations = passes (planner_on create_mock_disk) (
    added 0 (100 * gb)
    ∷ added (100 * gb) (200 * gb)
    ∷ asserts (of_layout (has_length 2))
    ∷ undone true
    ∷ asserts (of_layout (has_length 1))
    ∷ undone true
    ∷ asserts (of_layout (has_length 0))
    ∷ undone false
    ∷ [])

abbrev test_partition_boundaries : Bool
test_partition_boundaries = passes (planner_on create_mock_disk) (
    added 0 (100 * gb)
    ∷ added (100 * gb) (200 * gb)
    ∷ asserts (of_layout (has_length 2))
    ∷ asserts (of_layout (λ l. at 0 (λ r. at 1 (λ s. r.end == s.start) l) l))
    ∷ failed is_overlap (plan_add_partition (99 * gb) (150 * gb))
    ∷ failed is_overlap (plan_add_partition (150 * gb) (201 * gb))
    ∷ [])

abbrev test_alignment : Bool
test_alignment = passes (planner_on create_mock_disk) (
    added partition_alignment (2 * partition_alignment)
    ∷ added (2 * partition_alignment + 100) (3 * partition_alignment - 100)
    ∷ asserts (of_layout (at 0 (λ r. r.start == partition_alignment)))
    ∷ asserts (of_layout (at 0 (λ r. r.end == 2 * partition_alignment)))
    ∷ asserts (of_layout (at 1 (λ r. r.start == 2 * partition_alignment)))
    ∷ asserts (of_layout (at 1 (λ r. r.end == 3 * partition_alignment)))
    ∷ [])

abbrev test_alignment_functions : Bool
test_alignment_functions =
    align_up (2 * mb + 100) mb == 2 * mb
    && align_up (2 * mb) mb == 2 * mb
    && align_up (2 * mb + 600 * 1024) mb == 3 * mb
    && align_down (4 * mb - 100) mb == 4 * mb
    && align_down (4 * mb) mb == 4 * mb
    && align_down (4 * mb + 600 * 1024) mb == 5 * mb

abbrev is_numbered : ℕ → Region ℕ → Bool
is_numbered n r = elim r.partition_id [ none ↦ false | some id ↦ id == n ]

abbrev test_initialize_disk_partition_numbers : Bool
test_initialize_disk_partition_numbers =
    passes
      (plan_initialize_disk (
        planner_on (
          with_partition (200 * mb) (300 * mb)
            (with_partition (100 * mb) (200 * mb) (with_partition 0 (100 * mb) create_mock_disk)))))
      (added 0 (100 * mb)
        ∷ added (100 * mb) (200 * mb)
        ∷ asserts (of_layout (at 0 (is_numbered 1)))
        ∷ asserts (of_layout (at 1 (is_numbered 2)))
        ∷ [])

all_pass :
    (test_fresh_installation ≡ true)
    × (test_dual_boot_with_windows ≡ true)
    × (test_replace_linux ≡ true)
    × (test_region_validation ≡ true)
    × (test_undo_operations ≡ true)
    × (test_partition_boundaries ≡ true)
    × (test_alignment ≡ true)
    × (test_alignment_functions ≡ true)
    × (test_initialize_disk_partition_numbers ≡ true)
unfolding new new_mock mock_device Disks.add_partition Disks.new_with_name Disks.size
    Disks.partitions disks_rs.Base.mul64 disks_rs.Base.sub64 disks_rs.Base.add64 disks_rs.Base.add32
    size plan_add_partition disks_rs.Planner.plan_add_partition_with_attributes
    disks_rs.Planner.place disks_rs.Planner.layout_of plan_delete_partition undo
    plan_initialize_disk align_up align_down disks_rs.Sizing.is_aligned
all_pass = (refl, refl, refl, refl, refl, refl, refl, refl, refl)
