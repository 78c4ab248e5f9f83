-- ===== src/Provisioning/Provisioner/Final.antt =====
-- The plans that a call makes: crates/provisioning/src/provisioner.rs, the end of
-- `create_plans_for_strategy`.
use disks_rs.Base.{String, Option, none, some, List, [], ◌∷◌, ◌++◌, Outcome, done, fail, panic}
use disks_rs.Disks.{BlockDevice, FilePath, partition_path}
use disks_rs.Attributes.{PartitionAttributes}
use disks_rs.Types.{PartitionRole, Filesystem}
use disks_rs.Planner.{Planner, PlanError, Region, current_layout}
use disks_rs.Strategy.{apply}
use disks_rs.Provisioning.Parser.{StrategyDefinition}
use disks_rs.Provisioning.Provisioner.Assigning.{Pooled, Assignments, Plan, assign}

-- What a call comes to: a number of plans, a panic, or no more fuel.
pub data Plans (A : Type 0) : Type 0 where
  plans : List (Plan A) → Plans A
  panicked diverged : Plans A

module _ {A : Type 0} where
  abbrev pub also : Plans A → Plans A → Plans A
  also (plans ps) (plans qs) = plans (ps ++ qs)
  also (plans ps) panicked = panicked
  also (plans ps) diverged = diverged
  also panicked rest = panicked
  also diverged rest = diverged

  -- The loop over the matching devices.
  abbrev pub branches : (Assignments A → Plans A) → String → List Pooled → Assignments A → Plans A
  branches call name [] assigned = plans []
  branches call name (d ∷ ds) assigned =
      also (call (assign name d assigned)) (branches call name ds assigned)

-- The assignments after their strategies were applied, with the maps of mounts and filesystems.
abbrev pub Applied : Type 0 → Type 0 → Type 0
Applied G U =
    Assignments (PartitionAttributes G U)
    × List (PartitionRole × FilePath)
    × List (FilePath × Filesystem)

module _ {G U : Type 0} where
  -- What a region of the final layout adds to the plan.
  abbrev pub mounts_of :
      BlockDevice → List (Region (PartitionAttributes G U)) → List (PartitionRole × FilePath)
  mounts_of d [] = []
  mounts_of d (r ∷ rs) =
      let rest = mounts_of d rs in
      elim r.partition_id [
        | none ↦ rest
        | some id ↦ elim r.attributes [
          | none ↦ rest
          | some a ↦ elim a.role [
            | none ↦ rest
            | some role ↦ rest ++ (role, partition_path d id) ∷ []
          ]
        ]
      ]

  abbrev pub filesystems_of :
      BlockDevice → List (Region (PartitionAttributes G U)) → List (FilePath × Filesystem)
  filesystems_of d [] = []
  filesystems_of d (r ∷ rs) =
      let rest = filesystems_of d rs in
      elim r.partition_id [
        | none ↦ rest
        | some id ↦ elim r.attributes [
          | none ↦ rest
          | some a ↦ elim a.filesystem [
            | none ↦ rest
            | some fs ↦ rest ++ (partition_path d id, fs) ∷ []
          ]
        ]
      ]

  -- The planner that a strategy leaves; an error is only logged.
  abbrev pub left :
      Outcome PlanError (Planner (PartitionAttributes G U)) Unit
      → Option (Planner (PartitionAttributes G U))
  left (done _ p) = some p
  left (fail e p) = some p
  left panic = none

  -- The loop that applies the strategies; `none` is a panic.
  unfoldable pub apply_all : Assignments (PartitionAttributes G U) → Option (Applied G U)
  apply_all [] = some ([], [], [])
  apply_all (a ∷ more) = elim (left (apply a.1.strategy a.1.planner)) [
    | none ↦ none
    | some planner ↦ elim (current_layout planner) [
      | none ↦ none
      | some layout ↦ elim (apply_all more) [
        | none ↦ none
        | some (rest, mounts, filesystems) ↦ some (
          (a.0, record a.1 { planner = planner }) ∷ rest,
          mounts ++ mounts_of a.1.device.block_device layout,
          filesystems ++ filesystems_of a.1.device.block_device layout,
        )
      ]
    ]
  ]

  -- What follows the loop over the commands.
  unfoldable pub final_plan :
      StrategyDefinition → Assignments (PartitionAttributes G U) → Plans (PartitionAttributes G U)
  unfolding apply_all
  final_plan s assigned = elim (apply_all assigned) [
    | none ↦ panicked
    | some (rest, mounts, filesystems) ↦ plans (
        record {
          strategy = s;
          device_assignments = rest;
          role_mounts = mounts;
          filesystems = filesystems;
        }
        ∷ [])
  ]
