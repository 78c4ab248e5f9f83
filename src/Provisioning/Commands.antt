-- ===== src/Provisioning/Commands.antt =====
-- The commands of a strategy and their parsers: crates/provisioning/src/commands.rs and commands/*.rs.
use disks_rs.Base.{
  String, Bool, true, false, ◌||◌, Option, none, some, List, [], ◌∷◌, Result, ok, err, ◌>>=◌, ok_or,
  keep_if, if◌then◌else◌,
}
use disks_rs.Base.Text.{str_eq}
use disks_rs.Attributes.{PartitionAttributes, gpt}
use disks_rs.Types.{
  Error, KdlType, invalid_type, invalid_arguments, unsupported_node, PartitionRole,
  PartitionTableType, PartitionTypeGuid, type_guid_to_string, as_guid, GptTypes, Filesystem,
  Constraints,
}
use disks_rs.Kdl.{
  Kdl, get_kdl_property, get_kdl_entry, get_property_str, role_from_kdl_property,
  table_from_kdl_property, type_kdl_from_kdl_type, type_guid_from_kdl_node,
  constraints_from_kdl_node, child,
}
use disks_rs.Kdl.Nodes.{filesystem_from_kdl_node}

-- `create_partition::Command`
pub record CreatePartition : Type 0 where
  pub disk : String
  pub id : String
  pub role : Option PartitionRole
  pub partition_type : Option PartitionTypeGuid
  pub constraints : Constraints
  pub filesystem : Option Filesystem

-- `create_partition_table::Command`
pub record CreatePartitionTable : Type 0 where
  pub table_type : PartitionTableType
  pub disk : String

-- `find_disk::Command`
pub record FindDisk : Type 0 where
  pub name : String
  pub constraints : Option Constraints

pub data Command : Type 0 where
  create_partition : CreatePartition → Command
  create_partition_table : CreatePartitionTable → Command
  find_disk : FindDisk → Command

-- `create_partition::Command::attributes`
unfoldable pub attributes : {G U : Type 0} → GptTypes G → CreatePartition → PartitionAttributes G U
attributes t c = record {
  table = gpt (record {
    type_guid = elim c.partition_type [ some p ↦ as_guid t p | none ↦ t.basic ];
    name = elim c.partition_type [ some p ↦ some (type_guid_to_string p) | none ↦ none ];
    uuid = none;
  });
  role = c.role;
  filesystem = c.filesystem;
}

-- The variables of the loop over the children of a create-partition node.
pub record Options : Type 0 where
  pub constraints : Constraints
  pub partition_type : Option PartitionTypeGuid
  pub filesystem : Option Filesystem

-- `Constraints::default()` and nothing else.
abbrev pub no_options : Options
no_options = record { constraints = Constraints.invalid; partition_type = none; filesystem = none }

module _ {N E S : Type 0} (k : Kdl N E S) where
  -- One round of the loop.
  unfoldable pub read_option : N → Options → Result (Error S) Options
  read_option n o =
      if str_eq (k.name n) "constraints"
      then (do c ← constraints_from_kdl_node k n; ok (record o { constraints = c }))
      else if str_eq (k.name n) "type"
      then (do
        entry ← get_kdl_entry k n 0
        kind ← type_kdl_from_kdl_type k entry
        g ← type_guid_from_kdl_node k n
        ok (record o { partition_type = some g }))
      else if str_eq (k.name n) "filesystem"
      then (do f ← filesystem_from_kdl_node k n; ok (record o { filesystem = some f }))
      else err (unsupported_node (k.span n) (k.name n))

  unfoldable pub read_options : List N → Options → Result (Error S) Options
  read_options [] o = ok o
  read_options (n ∷ ns) o = read_option n o >>= λ p. read_options ns p

  -- The role, if the node has the property.
  abbrev pub read_role : N → Result (Error S) (Option PartitionRole)
  read_role n = elim (get_kdl_property k n "role") [
    | err e ↦ ok none
    | ok entry ↦ do r ← role_from_kdl_property k entry; ok (some r)
  ]

  -- The check after the loop.
  unfoldable pub checked :
      N → String → String → Option PartitionRole → Options → Result (Error S) CreatePartition
  checked n disk id role o = elim o.constraints [
    | Constraints.invalid ↦ err (
        invalid_arguments (k.span n) (
          some
            "create-partition [disk=<disk>] [role=<role>] [constraints=<constraints>] [type=(GUID)] - you must provide constraints"))
    | _ ↦ ok (record {
      disk = disk;
      id = id;
      role = role;
      partition_type = o.partition_type;
      constraints = o.constraints;
      filesystem = o.filesystem;
    })
  ]

  -- `create_partition::parse`
  unfoldable pub parse_create_partition : N → Result (Error S) CreatePartition
  unfolding read_options checked
  parse_create_partition n = do
    disk ← get_property_str k n "disk"
    id ← get_property_str k n "id"
    role ← read_role n
    o ← read_options (k.iter_children n) no_options
    checked n disk id role o

  -- `create_partition_table::parse`
  unfoldable pub parse_create_partition_table : N → Result (Error S) CreatePartitionTable
  parse_create_partition_table n = do
    kind ← get_kdl_property k n "type"
    t ← table_from_kdl_property k kind
    disk ← get_property_str k n "disk"
    ok (record { table_type = t; disk = disk })

  -- The name that a find-disk node gives by its one positional argument.
  abbrev pub single_argument : N → List E → Result (Error S) String
  single_argument n [] = err (
      invalid_arguments (k.span n)
        (some "find-disk <name> - you must provide a name to store the object"))
  single_argument n (e ∷ []) = ok_or (k.as_string e) (invalid_type (k.entry_span e) KdlType.string)
  single_argument n (e ∷ f ∷ es) = err (
      invalid_arguments (k.span n)
        (some "find-disk <name> - only one positional argument supported"))

  abbrev pub is_positional : E → Bool
  is_positional e = k.is_empty e || elim (k.entry_name e) [ none ↦ true | some x ↦ false ]

  abbrev pub optional_constraints : N → Result (Error S) (Option Constraints)
  optional_constraints n = elim (child k "constraints" n) [
    | none ↦ ok none
    | some c ↦ do x ← constraints_from_kdl_node k c; ok (some x)
  ]

  -- `find_disk::parse`
  unfoldable pub parse_find_disk : N → Result (Error S) FindDisk
  parse_find_disk n = do
    name ← single_argument n (keep_if is_positional (k.entries n))
    c ← optional_constraints n
    ok (record { name = name; constraints = c })

  -- `parse_command`, with the map of commands written out.
  unfoldable pub parse_command : N → Result (Error S) Command
  unfolding parse_find_disk parse_create_partition parse_create_partition_table
  parse_command n =
      if str_eq (k.name n) "find-disk"
      then (do c ← parse_find_disk n; ok (find_disk c))
      else if str_eq (k.name n) "create-partition"
      then (do c ← parse_create_partition n; ok (create_partition c))
      else if str_eq (k.name n) "create-partition-table"
      then (do c ← parse_create_partition_table n; ok (create_partition_table c))
      else err (unsupported_node (k.span n) (k.name n))
