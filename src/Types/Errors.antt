-- ===== src/Types/Errors.antt =====
-- Errors of parsing: crates/types/src/errors.rs and the type names of kdl_helpers.rs. `S` is the
-- type of source spans. The errors of the operating system and of the KDL parser are carried as
-- their texts.
use disks_rs.Base.{String, Option}

pub data KdlType : Type 0 where
  boolean string null integer : KdlType

pub data Error (S : Type 0) : Type 0 where
  io kdl : String → Error S
  unknown_type unknown_variant : Error S
  -- at, advice
  invalid_arguments unsupported_value : S → Option String → Error S
  -- at, expected_type
  invalid_type : S → KdlType → Error S
  -- at, name
  unsupported_node : S → String → Error S
  -- at, id, advice
  missing_entry missing_property : S → String → Option String → Error S
  missing_node : String → Error S

-- `Display for KdlType`
unfoldable pub kdl_type_to_string : KdlType → String
kdl_type_to_string KdlType.boolean = "boolean"
kdl_type_to_string KdlType.string = "string"
kdl_type_to_string KdlType.null = "null"
kdl_type_to_string KdlType.integer = "int"
