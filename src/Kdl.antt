-- ===== src/Kdl.antt =====
-- Reading values from KDL nodes: crates/types/src/kdl_helpers.rs and the `from_kdl_node`,
-- `from_kdl_property` and `from_kdl_type` functions beside the types. The `kdl` crate's documents
-- are a parameter: `N`, `E` and `S` are its nodes, entries and spans.
pub mod Sizes
pub mod Nodes
pub mod Examples
use disks_rs.Base.{
  ℕ, zero, suc, String, Bool, true, false, Option, none, some, List, [], ◌∷◌, ◌||◌, Result, ok, err,
  ◌>>=◌, ok_or, map_err, any, find, mul64, if◌then◌else◌,
}
use disks_rs.Base.Text.{concat, str_eq, decimal}
use disks_rs.Base.Int.{ℤ, to_u64, to_u32}
use disks_rs.Types.{
  Error, KdlType, invalid_type, unsupported_node, invalid_arguments, missing_entry,
  missing_property, unsupported_value, PartitionRole, role_from_str, PartitionTableType,
  table_from_str, PartitionTypeKdl, guid, type_kdl_from_str, PartitionTypeGuid, type_guid_from_str,
  StorageUnit, factor, unit_from_str, StandardFilesystemType, Filesystem, fat32, standard,
  filesystem_type_from_str, Constraints,
}
use disks_rs.Types

-- What the code asks of the `kdl` crate, and `str::to_lowercase`.
pub record Kdl (N E S : Type 0) : Type 0 where
  -- node.name().value(), node.name().to_string(), node.iter_children(), node.span(), node.entries()
  pub name : N → String
  pub name_text : N → String
  pub iter_children : N → List N
  pub span : N → S
  pub entries : N → List E
  -- node.entry(index), node.entry(name)
  pub entry_at : N → ℕ → Option E
  pub entry_named : N → String → Option E
  -- entry.ty(), entry.value().as_string(), entry.value().as_integer(), entry.span()
  pub ty : E → Option String
  pub as_string : E → Option String
  pub as_integer : E → Option ℤ
  pub entry_span : E → S
  -- entry.is_empty(), entry.name()
  pub is_empty : E → Bool
  pub entry_name : E → Option String
  pub to_lowercase : String → String

module _ {N E S : Type 0} (k : Kdl N E S) where
  unfoldable pub get_kdl_property : N → String → Result (Error S) E
  get_kdl_property node name = ok_or (k.entry_named node name) (
      missing_property (k.span node) name
        (some (concat "add `" (concat name "=...` to bind the property"))))

  unfoldable pub get_kdl_entry : N → ℕ → Result (Error S) E
  get_kdl_entry node id = ok_or (k.entry_at node id) (missing_entry (k.span node) (decimal id) none)

  unfoldable pub kdl_value_to_string : E → Result (Error S) String
  kdl_value_to_string entry =
      ok_or (k.as_string entry) (invalid_type (k.entry_span entry) KdlType.string)

  unfoldable pub kdl_value_to_integer : E → Result (Error S) ℤ
  kdl_value_to_integer entry =
      ok_or (k.as_integer entry) (invalid_type (k.entry_span entry) KdlType.integer)

  -- The annotation of an entry in lower case, or a default.
  abbrev pub ty_id : E → String → String
  ty_id id default = elim (k.ty id) [ none ↦ default | some t ↦ k.to_lowercase t ]

  -- `StorageUnit::from_kdl_type`
  unfoldable pub unit_from_kdl_type : E → Result (Error S) StorageUnit
  unit_from_kdl_type id =
      map_err
        (λ (_ : Error S).
          unsupported_value (k.entry_span id)
            (some "'b', 'kb', 'mb', 'gb', 'tb', 'kib', 'mib', 'gib', 'tib' are supported"))
        (unit_from_str (ty_id id "b"))

  unfoldable pub kdl_value_to_storage_size : E → Result (Error S) ℕ
  kdl_value_to_storage_size entry = do
    value ← kdl_value_to_integer entry
    units ← unit_from_kdl_type entry
    ok (mul64 (to_u64 value) (factor units))

  unfoldable pub get_property_str : N → String → Result (Error S) String
  unfolding get_kdl_property kdl_value_to_string
  get_property_str node name = get_kdl_property node name >>= kdl_value_to_string

  -- `PartitionRole::from_kdl_property`
  unfoldable pub role_from_kdl_property : E → Result (Error S) PartitionRole
  role_from_kdl_property entry = do
    value ← kdl_value_to_string entry
    map_err
        (λ (_ : Error S).
          unsupported_value (k.entry_span entry)
            (some "'boot', 'extended-boot', 'root', 'home' and 'swap' are supported"))
        (role_from_str value)

  -- `PartitionTableType::from_kdl_property`
  unfoldable pub table_from_kdl_property : E → Result (Error S) PartitionTableType
  table_from_kdl_property entry = do
    value ← kdl_value_to_string entry
    map_err
        (λ (_ : Error S).
          unsupported_value (k.entry_span entry) (some "'gpt' and 'msdos' are supported"))
        (table_from_str value)

  -- `StandardFilesystemType::from_kdl_property`
  unfoldable pub filesystem_type_from_kdl_property : E → Result (Error S) StandardFilesystemType
  filesystem_type_from_kdl_property entry = do
    value ← kdl_value_to_string entry
    map_err
        (λ (_ : Error S).
          unsupported_value (k.entry_span entry)
            (some "'fat32', 'ext4', 'f2fs', 'xfs' 'swap' are supported"))
        (filesystem_type_from_str value)

  -- `PartitionTypeKDL::from_kdl_type`
  unfoldable pub type_kdl_from_kdl_type : E → Result (Error S) PartitionTypeKdl
  type_kdl_from_kdl_type id =
      map_err
        (λ (_ : Error S).
          unsupported_value (k.entry_span id) (some "only '(GUID)' type is supported"))
        (type_kdl_from_str (ty_id id ""))

  -- `PartitionTypeGuid::from_kdl_node`
  unfoldable pub type_guid_from_kdl_node : N → Result (Error S) PartitionTypeGuid
  type_guid_from_kdl_node node = do
    entry ← get_kdl_entry node 0
    value ← kdl_value_to_string entry
    map_err
        (λ (_ : Error S). unsupported_value (k.span node) (
          some
            "'efi-system-partition', 'linux-swap' 'linux-extended-boot' and 'linux-fs' are supported"))
        (type_guid_from_str value)

  abbrev pub child : String → N → Option N
  child name node = find (λ n. str_eq (k.name n) name) (k.iter_children node)

  abbrev pub size_of : N → Result (Error S) ℕ
  size_of node = do entry ← get_kdl_entry node 0; kdl_value_to_storage_size entry

  -- The branches of `Constraints::from_kdl_node` below the one for a range.
  abbrev pub single_constraint : N → Result (Error S) Constraints
  single_constraint node = elim (child "min" node) [
    | some least ↦ do n ← size_of least; ok (Constraints.at_least n)
    | none ↦ elim (child "exactly" node) [
      | some exact ↦ do n ← size_of exact; ok (Constraints.exact n)
      | none ↦
          if any (λ n. str_eq (k.name n) "remaining") (k.iter_children node)
          then ok Constraints.remaining
          else err (
              missing_property (k.span node) "min, max, exactly or remaining"
                (some "add one of these properties"))
    ]
  ]

  -- `Constraints::from_kdl_node`
  unfoldable pub constraints_from_kdl_node : N → Result (Error S) Constraints
  constraints_from_kdl_node node = elim (child "min" node) [
    | none ↦ single_constraint node
    | some least ↦ elim (child "max" node) [
      | none ↦ single_constraint node
      | some most ↦ do n ← size_of least; m ← size_of most; ok (Constraints.range n m)
    ]
  ]
