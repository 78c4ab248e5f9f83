-- ===== src/Provisioning/Examples.antt =====
-- The theorems on provisioning at concrete strategies.
use disks_rs.Base.{
  none≢some, ℕ, ◌*◌, ◌≡◌, ◌↔◌, ok, refl, arith, inl, inr, String, Option, none, some, List, [], ◌∷◌,
  ◌++◌, Bool-cases, some-inj, sym, ap,
}
use disks_rs.Base.Text.{str_eq}
use disks_rs.Base.Int.{pos}
use disks_rs.Kdl
use disks_rs.Kdl.Examples.{text, Node, leaf, parent, nodes}
use disks_rs.Provisioning.Commands.{find_disk, CreatePartition, CreatePartitionTable, FindDisk}
use disks_rs.Types.{Constraints, PartitionTableType}
use disks_rs.Attributes.{PartitionAttributes}
use disks_rs.Provisioning.OneDevice.{whole_disk}
use disks_rs.Provisioning.WholeDisk.{EachServed, create_plans-EachServed}
use disks_rs.Provisioning.Parser.{StrategyDefinition, each, parse_node, new}
use disks_rs.Provisioning.Provisioner.{
  Provisioner, Plan, plans, matching_devices, lookup, strategy_parents, create_plans_for_strategy,
}
use disks_rs.Provisioning.Inheritance.{IsRanked, strategy_parents-ranked}
use disks_rs.Provisioning.Devices.{Distinct, create_plans-Distinct}
use disks_rs.Provisioning.Search.{Ends, create_plans-Ends}
use disks_rs.Provisioning.Files.{new_iff}
use disks_rs.Provisioning.Tests.{types, two_disks, pool}

create_plans-Distinct_example :
    Distinct (create_plans_for_strategy {U = ℕ} types 3 1 pool two_disks [])
create_plans-Distinct_example = create_plans-Distinct types 3 1 pool two_disks [] tt

abbrev selfish : StrategyDefinition
selfish = record { name = "a"; summary = ""; inherits = some "a"; commands = [] }

abbrev base : StrategyDefinition
base = record { name = "base"; summary = ""; inherits = none; commands = [] }

abbrev derived : StrategyDefinition
derived = record { name = "derived"; summary = ""; inherits = some "base"; commands = [] }

abbrev both : Provisioner
both = record { devices = []; configs = ("base", base) ∷ [] }

abbrev height : Option String → ℕ
height none = 0
height (some n) = 1

abbrev rank : StrategyDefinition → ℕ
rank s = height s.inherits

lookup-base : (n : String) (q : StrategyDefinition) → lookup n both.configs ≡ some q → rank q ≡ 0
lookup-base n q h = elim (Bool-cases (str_eq "base" n)) [
  | inl t ↦ ap rank (sym (some-inj (simp (t, lookup) at h)))
  | inr t ↦ absurd (none≢some (simp (t, lookup) at h))
]

both-IsRanked : IsRanked rank both
both-IsRanked s q n e h = omega (arith, lookup-base n q h, ap height e)

strategy_parents-ranked_example :
    (above : List StrategyDefinition) × (strategy_parents 2 both derived
      ≡ some (above ++ derived ∷ []))
strategy_parents-ranked_example =
    strategy_parents-ranked rank both 2 derived both-IsRanked (omega arith)

abbrev create_root : Node
create_root = parent "create-partition" (parent "constraints" (leaf "exactly" none (pos 512)))

create_plans-Ends_example : Ends (create_plans_for_strategy {U = ℕ} types 3 1 pool two_disks [])
unfolding strategy_parents
create_plans-Ends_example =
    create_plans-Ends types 3 1 pool two_disks (two_disks ∷ []) [] refl (omega arith)

abbrev find_strategy : StrategyDefinition
find_strategy = record {
  name = "name";
  summary = "summary";
  inherits = some "inherits";
  commands = find_disk (record { name = "a"; constraints = none }) ∷ [];
}

new_iff_example :
    (new nodes (ok (parent "strategy" (text "find-disk" "a") ∷ [])) ≡ ok (find_strategy ∷ [])) ↔ (
      each (parse_node nodes) (parent "strategy" (text "find-disk" "a") ∷ [])
      ≡ each ok (find_strategy ∷ []))
new_iff_example = new_iff nodes (parent "strategy" (text "find-disk" "a") ∷ []) (find_strategy ∷ [])

-- The document of that example is accepted.
accepted : new nodes (ok (parent "strategy" (text "find-disk" "a") ∷ [])) ≡ ok (find_strategy ∷ [])
unfolding new Kdl.get_property_str
accepted = refl

abbrev home : CreatePartition
home = record {
  disk = "";
  id = "home";
  role = none;
  partition_type = none;
  constraints = Constraints.exact 0;
  filesystem = none;
}

abbrev gpt_table : CreatePartitionTable
gpt_table = record { table_type = PartitionTableType.gpt; disk = "" }

abbrev any_disk : FindDisk
any_disk = record { name = "root"; constraints = none }

-- Two partitions of 1 and 2 GiB, on each of two disks.
abbrev two_partitions : List (ℕ × CreatePartition)
two_partitions = (1024 * 1024 * 1024, home) ∷ (2 * 1024 * 1024 * 1024, home) ∷ []

create_plans-EachServed_example :
    (ps : List (Plan (PartitionAttributes ℕ ℕ))) × (create_plans_for_strategy types 2 1 pool
        (whole_disk "home" "" any_disk gpt_table two_partitions)
        []
      ≡ plans ps)
    × EachServed types
        (whole_disk "home" "" any_disk gpt_table two_partitions)
        "root"
        two_partitions
        pool.devices
        ps
unfolding matching_devices disks_rs.Sizing.is_aligned disks_rs.Disks.size disks_rs.Base.mul64
    disks_rs.Disks.mock_device disks_rs.Disks.new_mock
create_plans-EachServed_example =
    create_plans-EachServed types 0 0 pool "home" "" any_disk gpt_table two_partitions
      ((refl, omega arith), ((refl, omega arith), tt)) (omega arith)
      ((omega arith, omega arith), ((omega arith, omega arith), tt))
