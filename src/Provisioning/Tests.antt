-- ===== src/Provisioning/Tests.antt =====
-- A strategy with two disks, run on a pool of two devices: crates/provisioning/src/provisioner.rs.
use disks_rs.Base.{ℕ, ◌*◌, ◌≡◌, refl, String, Option, none, some, List, [], ◌∷◌, length}
use disks_rs.Disks.{new_mock, mock_device}
use disks_rs.Types.{GptTypes, Constraints}
use disks_rs.Attributes.{PartitionAttributes}
use disks_rs.Provisioning.Commands.{Command, create_partition, find_disk}
use disks_rs.Provisioning.Parser.{StrategyDefinition}
use disks_rs.Provisioning.Provisioner.{
  Assignments, Plan, Plans, plans, panicked, diverged, Provisioner, create_plans_for_strategy,
}

abbrev gb : ℕ
gb = 1024 * 1024 * 1024

abbrev pub types : GptTypes ℕ
types = record { efi = 1; freedesk_boot = 2; linux_swap_type = 3; linux_fs = 4; basic = 0 }

abbrev partition : String → Command
partition disk = create_partition (record {
  disk = disk;
  id = "id";
  role = none;
  partition_type = none;
  constraints = Constraints.exact gb;
  filesystem = none;
})

abbrev pub two_disks : StrategyDefinition
two_disks = record {
  name = "two disks";
  summary = "";
  inherits = none;
  commands =
      find_disk (record { name = "first"; constraints = none })
      ∷ partition "first"
      ∷ find_disk (record { name = "second"; constraints = none })
      ∷ partition "second"
      ∷ [];
}

abbrev pub pool : Provisioner
pool = record {
  devices =
      record { address = 0; block_device = mock_device (new_mock (20 * gb)) }
      ∷ record { address = 1; block_device = mock_device (new_mock (30 * gb)) }
      ∷ [];
  configs = ("two disks", two_disks) ∷ [];
}

abbrev requests : Assignments (PartitionAttributes ℕ ℕ) → List (String × ℕ)
requests [] = []
requests (a ∷ more) = (a.0, length a.1.strategy.requests) ∷ requests more

abbrev all_requests : List (Plan (PartitionAttributes ℕ ℕ)) → List (List (String × ℕ))
all_requests [] = []
all_requests (p ∷ ps) = requests p.device_assignments ∷ all_requests ps

abbrev of_plans : Plans (PartitionAttributes ℕ ℕ) → List (List (String × ℕ))
of_plans (plans ps) = all_requests ps
of_plans panicked = []
of_plans diverged = []

-- Both ways to choose the devices make a plan. The first disk has its one partition requested twice:
-- the commands run from the start again once the second disk was found.
requested_twice :
    of_plans (create_plans_for_strategy types 3 1 pool two_disks [])
    ≡ (("first", 2) ∷ ("second", 1) ∷ []) ∷ (("first", 2) ∷ ("second", 1) ∷ []) ∷ []
unfolding create_plans_for_strategy mock_device new_mock disks_rs.Strategy.new
    disks_rs.Strategy.apply disks_rs.Planner.new disks_rs.Disks.size disks_rs.Base.mul64
    disks_rs.Base.add64 disks_rs.Base.sub64 disks_rs.Strategy.exact_pass
    disks_rs.Planner.plan_add_partition_with_attributes disks_rs.Sizing.is_aligned
    disks_rs.Sizing.align_up disks_rs.Sizing.align_down disks_rs.Planner.place
    disks_rs.Planner.layout_of disks_rs.Strategy.flexible_pass disks_rs.Strategy.find_free_regions
    disks_rs.Planner.with_end_offset disks_rs.Planner.with_start_offset
    disks_rs.Strategy.max_by_size disks_rs.Disks.partitions
requested_twice = refl
