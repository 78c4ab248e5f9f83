-- ===== src/Provisioning/Provisioner.antt =====
-- The provisioner: crates/provisioning/src/provisioner.rs. References are compared by address, so a
-- device of the pool comes with its address. A hash map is the list of its entries; a key that is
-- inserted twice keeps the entry in front. `G` and `U` are types of the `gpt` and `uuid` crates.
mod Assigning
mod Final
use disks_rs.Base.{
  ℕ, zero, suc, String, Bool, true, false, not, ◌&&◌, Option, none, some, List, [], ◌∷◌, ◌++◌,
  Outcome, done, fail, panic, sub64, leb, any, keep_if, ◌==◌, if◌then◌else◌,
}
use disks_rs.Base.Text.{str_eq}
use disks_rs.Disks
use disks_rs.Disks.{BlockDevice, FilePath, partition_path}
use disks_rs.Attributes.{PartitionAttributes}
use disks_rs.Types.{GptTypes, PartitionRole, Filesystem, Constraints}
use disks_rs.Planner
use disks_rs.Planner.{
  Planner, PlanError, Region, partition_alignment, with_start_offset, with_end_offset,
  current_layout,
}
use disks_rs.Strategy
use disks_rs.Strategy.{
  Strategy, PartitionRequest, SizeRequirement, initialize_whole_disk, largest_free, add_request,
  apply,
}
use disks_rs.Provisioning.Commands.{
  Command, create_partition, create_partition_table, find_disk, CreatePartition, attributes,
}
use disks_rs.Provisioning.Parser.{StrategyDefinition}
unfoldable pub use Assigning.*
unfoldable pub use Final.*

pub record Provisioner : Type 0 where
  pub devices : List Pooled
  pub configs : List (String × StrategyDefinition)

-- `Provisioner::new`
unfoldable pub new : Provisioner
new = record { devices = []; configs = [] }

-- `add_strategy`: the entry of an equal name is replaced.
unfoldable pub add_strategy : StrategyDefinition → Provisioner → Provisioner
add_strategy config p = record p {
  configs = (config.name, config) ∷ keep_if (λ c. not (str_eq c.0 config.name)) p.configs;
}

unfoldable pub push_device : Pooled → Provisioner → Provisioner
push_device device p = record p { devices = p.devices ++ device ∷ [] }

-- `HashMap::get`
abbrev pub lookup : {V : Type 0} → String → List (String × V) → Option V
lookup key [] = none
lookup key (e ∷ es) = let rest = lookup key es in if str_eq e.0 key then some e.1 else rest

-- `strategy_parents` on fuel; `none` is that the fuel ran out.
unfoldable pub strategy_parents :
    ℕ → Provisioner → StrategyDefinition → Option (List StrategyDefinition)
strategy_parents zero p s = none
strategy_parents (suc fuel) p s = elim s.inherits [
  | none ↦ some (s ∷ [])
  | some parent ↦ elim (lookup parent p.configs) [
    | none ↦ some (s ∷ [])
    | some q ↦ elim (strategy_parents fuel p q) [
      | none ↦ none
      | some chain ↦ some (chain ++ s ∷ [])
    ]
  ]
]

abbrev pub commands_of : List StrategyDefinition → List Command
commands_of [] = []
commands_of (s ∷ ss) = s.commands ++ commands_of ss

module _ {G U : Type 0} (t : GptTypes G) where
  -- The request of a create-partition command.
  abbrev pub request_of : CreatePartition → PartitionRequest (PartitionAttributes G U)
  request_of c = record { size = requirement c.constraints; attributes = some (attributes t c) }

  -- The loop over the commands, with `call` for the call of `create_plans_for_strategy` on the
  -- strategy itself.
  unfoldable pub walk :
      (Assignments (PartitionAttributes G U) → Plans (PartitionAttributes G U))
      → List Pooled
      → StrategyDefinition
      → List Command
      → Assignments (PartitionAttributes G U)
      → Plans (PartitionAttributes G U)
  unfolding final_plan matching_devices assign add_request
  walk call devices s [] assigned = final_plan s assigned
  walk call devices s (find_disk c ∷ cs) assigned = elim (contains_key c.name assigned) [
    | true ↦ walk call devices s cs assigned
    | false ↦ branches call c.name (matching_devices c.constraints devices assigned) assigned
  ]
  walk call devices s (create_partition_table c ∷ cs) assigned =
      walk call devices s cs (update c.disk (λ _. Strategy.new initialize_whole_disk) assigned)
  walk call devices s (create_partition c ∷ cs) assigned =
      walk call devices s cs (update c.disk (add_request (request_of c)) assigned)

  -- `create_plans_for_strategy`, on fuel for its own calls and for the chain of its parents.
  unfoldable pub create_plans_for_strategy :
      ℕ
      → ℕ
      → Provisioner
      → StrategyDefinition
      → Assignments (PartitionAttributes G U)
      → Plans (PartitionAttributes G U)
  unfolding strategy_parents walk
  create_plans_for_strategy zero depth p s assigned = diverged
  create_plans_for_strategy (suc fuel) depth p s assigned = elim (strategy_parents depth p s) [
    | none ↦ diverged
    | some chain ↦
        walk (create_plans_for_strategy fuel depth p s) p.devices s (commands_of chain) assigned
  ]

  abbrev pub plan_each :
      ℕ → ℕ → Provisioner → List (String × StrategyDefinition) → Plans (PartitionAttributes G U)
  plan_each fuel depth p [] = plans []
  plan_each fuel depth p (c ∷ cs) =
      also (create_plans_for_strategy fuel depth p c.1 []) (plan_each fuel depth p cs)

  -- `Provisioner::plan`
  unfoldable pub plan : ℕ → ℕ → Provisioner → Plans (PartitionAttributes G U)
  unfolding create_plans_for_strategy
  plan fuel depth p = plan_each fuel depth p p.configs
