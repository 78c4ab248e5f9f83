-- ===== src/Types/Messages.antt =====
-- The texts of the errors, and the type of a KDL value: crates/types/src/errors.rs and
-- `KdlType::for_value` of kdl_helpers.rs.
use disks_rs.Base.{String, Bool, Result, ok, err, ◌≡◌, refl, if◌then◌else◌}
use disks_rs.Base.Text.{concat}
use disks_rs.Types.Errors.{
  KdlType, boolean, string, null, integer, kdl_type_to_string, Error, io, kdl, unknown_type,
  unknown_variant, invalid_arguments, unsupported_value, invalid_type, unsupported_node,
  missing_entry, missing_property, missing_node,
}

-- What the kdl crate's tests of a value say.
pub record KdlValue : Type 0 where
  pub is_bool : Bool
  pub is_string : Bool
  pub is_null : Bool
  pub is_integer : Bool

-- `KdlType::for_value`
unfoldable pub for_value : {S : Type 0} → KdlValue → Result (Error S) KdlType
for_value value =
    if value.is_bool
    then ok boolean
    else if value.is_string
    then ok string
    else if value.is_null
    then ok null
    else if value.is_integer
    then ok integer
    else err unknown_type

-- The texts of the structs.
abbrev pub invalid_type_to_string : KdlType → String
invalid_type_to_string expected_type =
    concat "invalid type, expected " (kdl_type_to_string expected_type)

abbrev pub missing_property_to_string : String → String
missing_property_to_string id = concat "missing property: " id

abbrev pub missing_entry_to_string : String → String
missing_entry_to_string id = concat "missing entry: " id

abbrev pub unsupported_node_to_string : String → String
unsupported_node_to_string name = concat "unsupported node: " name

abbrev pub unsupported_value_text : String
unsupported_value_text = "unsupported value"

abbrev pub invalid_arguments_text : String
invalid_arguments_text = "invalid arguments"

-- `Display for Error`
unfoldable pub error_to_string : {S : Type 0} → Error S → String
unfolding kdl_type_to_string
error_to_string (io e) = e
error_to_string (kdl e) = e
error_to_string unknown_type = "unknown type"
error_to_string unknown_variant = "unknown variant"
error_to_string (invalid_arguments at advice) = invalid_arguments_text
error_to_string (invalid_type at expected_type) = invalid_type_to_string expected_type
error_to_string (unsupported_node at name) = unsupported_node_to_string name
error_to_string (missing_entry at id advice) = missing_entry_to_string id
error_to_string (missing_node name) = concat "missing node: " name
error_to_string (missing_property at id advice) = missing_property_to_string id
error_to_string (unsupported_value at advice) = unsupported_value_text

shown : error_to_string {S = Unit} (invalid_type tt integer) ≡ "invalid type, expected int"
unfolding error_to_string kdl_type_to_string
shown = refl
