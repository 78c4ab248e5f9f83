-- ===== src/Provisioning/Provisioner/Assigning.antt =====
-- The devices that names are assigned to: crates/provisioning/src/provisioner.rs, `DevicePlan` and
-- what `create_plans_for_strategy` does with its map of them.
use disks_rs.Base.{
  ℕ, String, Bool, true, not, ◌&&◌, Option, some, List, [], ◌∷◌, ◌++◌, sub64, leb, any, keep_if,
  ◌==◌, if◌then◌else◌,
}
use disks_rs.Base.Text.{str_eq}
use disks_rs.Disks
use disks_rs.Disks.{BlockDevice, FilePath, partition_path}
use disks_rs.Types.{PartitionRole, Filesystem, Constraints}
use disks_rs.Planner
use disks_rs.Planner.{
  Planner, PlanError, Region, partition_alignment, with_start_offset, with_end_offset,
  current_layout,
}
use disks_rs.Strategy
use disks_rs.Strategy.{
  Strategy, PartitionRequest, SizeRequirement, initialize_whole_disk, largest_free, add_request,
  apply,
}
use disks_rs.Provisioning.Parser.{StrategyDefinition}

pub record Pooled : Type 0 where
  pub address : ℕ
  pub block_device : BlockDevice

pub record DevicePlan (A : Type 0) : Type 0 where
  pub device : Pooled
  pub planner : Planner A
  pub strategy : Strategy A

abbrev pub Assignments : Type 0 → Type 0
Assignments A = List (String × DevicePlan A)

pub record Plan (A : Type 0) : Type 0 where
  pub strategy : StrategyDefinition
  pub device_assignments : Assignments A
  pub role_mounts : List (PartitionRole × FilePath)
  pub filesystems : List (FilePath × Filesystem)

-- The first filter on the devices of the pool.
unfoldable pub fits : Option Constraints → BlockDevice → Bool
fits (some (Constraints.at_least n)) d = leb n (Disks.size d)
fits (some (Constraints.exact n)) d = Disks.size d == n
fits (some (Constraints.range least most)) d = leb least (Disks.size d) && leb (Disks.size d) most
fits _ d = true

abbrev pub requirement : Constraints → SizeRequirement
requirement (Constraints.at_least n) = SizeRequirement.at_least n
requirement (Constraints.exact n) = SizeRequirement.exact n
requirement (Constraints.range least most) = SizeRequirement.range least most
requirement _ = SizeRequirement.remaining

module _ {A : Type 0} where
  -- The second filter: the device is not assigned yet.
  abbrev pub is_assigned : ℕ → Assignments A → Bool
  is_assigned address assigned = any (λ a. a.1.device.address == address) assigned

  unfoldable pub matching_devices : Option Constraints → List Pooled → Assignments A → List Pooled
  unfolding fits
  matching_devices constraints devices assigned =
      keep_if (λ d. not (is_assigned d.address assigned))
        (keep_if (λ d. fits constraints d.block_device) devices)

  abbrev pub contains_key : String → Assignments A → Bool
  contains_key key assigned = any (λ a. str_eq a.0 key) assigned

  -- A new device plan, under a name that is not a key yet.
  unfoldable pub assign : String → Pooled → Assignments A → Assignments A
  assign name d assigned =
      assigned
      ++ (
        name,
        record {
          device = d;
          planner =
              with_end_offset (sub64 (Disks.size d.block_device) partition_alignment)
                (with_start_offset partition_alignment (Planner.new d.block_device));
          strategy = Strategy.new largest_free;
        },
      )
        ∷ []

  -- `get_mut` and a change of the strategy.
  abbrev pub update : String → (Strategy A → Strategy A) → Assignments A → Assignments A
  update key f [] = []
  update key f (a ∷ more) =
      let rest = update key f more in
      if str_eq a.0 key then (a.0, record a.1 { strategy = f a.1.strategy }) ∷ more else a ∷ rest
