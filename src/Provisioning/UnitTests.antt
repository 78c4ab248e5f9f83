-- ===== src/Provisioning/UnitTests.antt =====
-- The test of the provisioner, run: crates/provisioning/src/provisioner.rs, `mod tests`.
use disks_rs.Base.{ℕ, ◌*◌, ◌≡◌, refl, Bool, true, false, ◌&&◌, List, [], ◌∷◌, length, ok, err, ◌==◌}
use disks_rs.Disks.{new_mock, mock_device}
use disks_rs.Attributes.{PartitionAttributes}
use disks_rs.Provisioning.Document.{documents, use_whole_disk}
use disks_rs.Provisioning.Parser.{StrategyDefinition, new_for_path}
use disks_rs.Provisioning.Provisioner
use disks_rs.Provisioning.Provisioner.{
  Provisioner, Plan, Plans, plans, panicked, diverged, add_strategy, push_device, plan,
}
use disks_rs.Provisioning.Tests.{types}

-- The pool with the device, and the loop over the strategies.
abbrev pushed : Provisioner
pushed =
    push_device
      (record { address = 0; block_device = mock_device (new_mock (150 * 1024 * 1024 * 1024)) })
      Provisioner.new

abbrev with_strategies : List StrategyDefinition → Provisioner → Provisioner
with_strategies [] p = p
with_strategies (s ∷ ss) p = with_strategies ss (add_strategy s p)

-- One plan, with one assignment.
abbrev is_single : Plans (PartitionAttributes ℕ ℕ) → Bool
is_single (plans []) = false
is_single (plans (p ∷ ps)) = length ps == 0 && length p.device_assignments == 1
is_single panicked = false
is_single diverged = false

-- `Parser::new_for_path(..).unwrap()` panics on an error.
abbrev test_use_whole_disk : Bool
test_use_whole_disk = elim (new_for_path documents (ok "") (λ s. ok use_whole_disk)) [
  | err es ↦ false
  | ok def ↦ is_single (plan types 2 1 (with_strategies def pushed))
]

passes : test_use_whole_disk ≡ true
unfolding new_for_path plan disks_rs.Kdl.get_property_str disks_rs.Kdl.constraints_from_kdl_node
    disks_rs.Kdl.get_kdl_entry disks_rs.Kdl.kdl_value_to_storage_size
    disks_rs.Kdl.kdl_value_to_integer disks_rs.Kdl.unit_from_kdl_type disks_rs.Types.unit_from_str
    disks_rs.Kdl.table_from_kdl_property disks_rs.Types.table_from_str
    disks_rs.Kdl.role_from_kdl_property disks_rs.Types.role_from_str
    disks_rs.Provisioning.Commands.read_option disks_rs.Kdl.type_kdl_from_kdl_type
    disks_rs.Types.type_kdl_from_str disks_rs.Kdl.type_guid_from_kdl_node
    disks_rs.Types.type_guid_from_str disks_rs.Kdl.Nodes.filesystem_from_kdl_node
    disks_rs.Types.filesystem_type_from_str disks_rs.Base.mul64 disks_rs.Base.add64
    disks_rs.Base.add32 disks_rs.Base.sub64 disks_rs.Base.Int.to_u64 disks_rs.Types.factor
    disks_rs.Disks.size disks_rs.Disks.mock_device new_mock disks_rs.Disks.sectors
    disks_rs.Planner.layout_of disks_rs.Planner.place
    disks_rs.Planner.plan_add_partition_with_attributes disks_rs.Sizing.align_down
    disks_rs.Sizing.align_up disks_rs.Sizing.is_aligned disks_rs.Strategy.flexible_pass
    disks_rs.Strategy.exact_pass disks_rs.Planner.with_start_offset disks_rs.Planner.with_end_offset
    add_strategy push_device Provisioner.new disks_rs.Strategy.apply disks_rs.Strategy.new
    disks_rs.Planner.plan_initialize_disk
passes = refl
