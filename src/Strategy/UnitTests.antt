-- ===== src/Strategy/UnitTests.antt =====
-- The tests of the allocation strategies, run: crates/partitioning/src/strategy.rs, `mod tests`.
use disks_rs.Base.{
  ℕ, ◌+◌, ◌*◌, ◌≡◌, refl, Bool, true, false, not, Option, none, some, List, [], ◌∷◌, map, leb,
  Outcome, done, fail, panic,
}
use disks_rs.Disks.{MockDisk, new_mock, mock_device}
use disks_rs.Disks
use disks_rs.Planner
use disks_rs.Planner.{PlanError, Planner, Region, size, current_layout, has_changes}
use disks_rs.Planner.UnitTests.{
  is_ok, failed, is_out_of_bounds, asserts, of_layout, has_length, at, passes, planner_on, mb, gb,
  with_partition,
}
use disks_rs.Strategy
use disks_rs.Strategy.{
  AllocationStrategy, initialize_whole_disk, largest_free, SizeRequirement, exact, at_least, range,
  remaining, PartitionRequest, Strategy, add_request, apply,
}

abbrev efi_size : ℕ
efi_size = 512 * mb

abbrev boot_size : ℕ
boot_size = gb

abbrev swap_min : ℕ
swap_min = 4 * gb

abbrev swap_max : ℕ
swap_max = 8 * gb

abbrev root_min : ℕ
root_min = 20 * gb

abbrev root_max : ℕ
root_max = 100 * gb

abbrev requesting : SizeRequirement → PartitionRequest ℕ
requesting n = record { size = n; attributes = none }

abbrev root_partition : PartitionRequest ℕ
root_partition = requesting (at_least root_min)

abbrev capped_root_partition : PartitionRequest ℕ
capped_root_partition = requesting (range root_min root_max)

abbrev efi_partition : PartitionRequest ℕ
efi_partition = requesting (exact efi_size)

abbrev boot_partition : PartitionRequest ℕ
boot_partition = requesting (exact boot_size)

abbrev swap_partition : PartitionRequest ℕ
swap_partition = requesting (range swap_min swap_max)

abbrev home_partition : PartitionRequest ℕ
home_partition = requesting remaining

abbrev create_test_disk : MockDisk
create_test_disk = new_mock (500 * gb)

-- A strategy with requests that are added one after the other.
abbrev requested : List (PartitionRequest ℕ) → Strategy ℕ → Strategy ℕ
requested [] s = s
requested (r ∷ rs) s = requested rs (add_request r s)

abbrev with_requests : AllocationStrategy ℕ → List (PartitionRequest ℕ) → Strategy ℕ
with_requests allocation rs = requested rs (Strategy.new allocation)

abbrev uefi : Strategy ℕ
uefi =
    with_requests initialize_whole_disk (
      efi_partition ∷ boot_partition ∷ swap_partition ∷ capped_root_partition ∷ home_partition ∷ [])

abbrev test_uefi_clean_install : Bool
test_uefi_clean_install = passes (planner_on create_test_disk) (
    is_ok (apply uefi)
    ∷ asserts (of_layout (has_length 5))
    ∷ asserts (of_layout (at 0 (λ r. leb efi_size (size r))))
    ∷ asserts (of_layout (at 1 (λ r. leb boot_size (size r))))
    ∷ asserts (of_layout (at 2 (λ r. leb swap_min (size r))))
    ∷ asserts (of_layout (at 3 (λ r. leb root_min (size r))))
    ∷ [])

abbrev test_dual_boot_install : Bool
test_dual_boot_install =
    passes
      (planner_on (
        with_partition (116 * mb) (200 * gb)
          (with_partition (100 * mb) (116 * mb) (with_partition 0 (100 * mb) create_test_disk))))
      (is_ok (apply (with_requests largest_free (swap_partition ∷ root_partition ∷ [])))
        ∷ asserts (of_layout (has_length 5))
        ∷ [])

abbrev test_minimal_server_install : Bool
test_minimal_server_install = passes (planner_on create_test_disk) (
    is_ok (apply (with_requests initialize_whole_disk (boot_partition ∷ requesting remaining ∷ [])))
    ∷ asserts (of_layout (has_length 2))
    ∷ [])

abbrev test_insufficient_space : Bool
test_insufficient_space = passes (planner_on (new_mock (10 * gb))) (
    failed (λ e. true)
      (apply (with_requests initialize_whole_disk (requesting (exact (20 * gb)) ∷ [])))
    ∷ [])

abbrev test_flexible_partition_overflow : Bool
test_flexible_partition_overflow = passes (planner_on (new_mock (10 * gb))) (
    failed is_out_of_bounds (
      apply (
        with_requests initialize_whole_disk
          (requesting (at_least (6 * gb)) ∷ requesting (at_least (6 * gb)) ∷ [])))
    ∷ asserts (λ p. not (has_changes p))
    ∷ [])

abbrev test_partial_partition_creation : Bool
test_partial_partition_creation = passes (planner_on (new_mock (8 * gb))) (
    failed is_out_of_bounds (
      apply (
        with_requests initialize_whole_disk (
          requesting (range gb (2 * gb))
          ∷ requesting (range (2 * gb) (4 * gb))
          ∷ requesting (range (25 * gb) (120 * gb))
          ∷ [])))
    ∷ asserts (λ p. not (has_changes p))
    ∷ [])

all_pass :
    (test_uefi_clean_install ≡ true)
    × (test_dual_boot_install ≡ true)
    × (test_minimal_server_install ≡ true)
    × (test_insufficient_space ≡ true)
    × (test_flexible_partition_overflow ≡ true)
    × (test_partial_partition_creation ≡ true)
unfolding Strategy.new add_request apply Planner.plan_initialize_disk Planner.new Disks.size
    Disks.partitions Disks.add_partition Disks.new_with_name size disks_rs.Base.mul64 mock_device
    new_mock disks_rs.Base.add64 disks_rs.Base.add32 disks_rs.Base.sub64
    disks_rs.Strategy.exact_pass Strategy.find_free_regions Strategy.max_by_size
    Planner.plan_add_partition_with_attributes disks_rs.Sizing.is_aligned disks_rs.Sizing.align_up
    disks_rs.Sizing.align_down Planner.place Planner.layout_of disks_rs.Strategy.flexible_pass
all_pass = (refl, refl, refl, refl, refl, refl)

-- The layout of the first test.
abbrev bounds : Outcome PlanError (Planner ℕ) Unit → List (ℕ × ℕ)
bounds (done _ p) = elim (current_layout p) [ none ↦ [] | some l ↦ map (λ r. (r.start, r.end)) l ]
bounds (fail e p) = []
bounds panic = []

uefi_clean_install :
    bounds (apply uefi (planner_on create_test_disk))
    ≡ (0, 512 * mb)
      ∷ (512 * mb, 1536 * mb)
      ∷ (1536 * mb, 1536 * mb + 8 * gb)
      ∷ (1536 * mb + 8 * gb, 1536 * mb + 108 * gb)
      ∷ (1536 * mb + 108 * gb, 500 * gb)
      ∷ []
unfolding Strategy.new add_request apply disks_rs.Base.sub64 Planner.plan_initialize_disk
    Planner.new Disks.size disks_rs.Base.mul64 mock_device new_mock disks_rs.Base.add64
    disks_rs.Strategy.exact_pass Strategy.find_free_regions Strategy.max_by_size
    Planner.plan_add_partition_with_attributes disks_rs.Sizing.is_aligned disks_rs.Sizing.align_up
    disks_rs.Sizing.align_down Planner.place Planner.layout_of disks_rs.Strategy.flexible_pass
uefi_clean_install = refl
