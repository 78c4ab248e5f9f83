-- ===== src/Types/Units.antt =====
-- Storage units: crates/types/src/units.rs.
use disks_rs.Base.{ℕ, ◌*◌, String, Result, ok, err, if◌then◌else◌}
use disks_rs.Base.Text.{str_eq}
use disks_rs.Types.Errors.{Error, unknown_variant}

pub data StorageUnit : Type 0 where
  bytes kilobytes megabytes gigabytes terabytes kibibytes mebibytes gibibytes tebibytes :
      StorageUnit

-- The discriminants, `units as u64`.
unfoldable pub factor : StorageUnit → ℕ
factor bytes = 1
factor kilobytes = 1000
factor megabytes = 1_000_000
factor gigabytes = 1_000_000_000
factor terabytes = 1_000_000_000_000
factor kibibytes = 1024
factor mebibytes = 1024 * 1024
factor gibibytes = 1024 * 1024 * 1024
factor tebibytes = 1024 * 1024 * 1024 * 1024

-- `Display for StorageUnit`
unfoldable pub unit_to_string : StorageUnit → String
unit_to_string bytes = "bytes"
unit_to_string kilobytes = "kilobytes"
unit_to_string megabytes = "megabytes"
unit_to_string gigabytes = "gigabytes"
unit_to_string terabytes = "terabytes"
unit_to_string kibibytes = "kibibytes"
unit_to_string mebibytes = "mebibytes"
unit_to_string gibibytes = "gibibytes"
unit_to_string tebibytes = "tebibytes"

-- `FromStr for StorageUnit`
unfoldable pub unit_from_str : {S : Type 0} → String → Result (Error S) StorageUnit
unit_from_str value =
    if str_eq value "b"
    then ok bytes
    else if str_eq value "kb"
    then ok kilobytes
    else if str_eq value "mb"
    then ok megabytes
    else if str_eq value "gb"
    then ok gigabytes
    else if str_eq value "tb"
    then ok terabytes
    else if str_eq value "kib"
    then ok kibibytes
    else if str_eq value "mib"
    then ok mebibytes
    else if str_eq value "gib"
    then ok gibibytes
    else if str_eq value "tib"
    then ok tebibytes
    else err unknown_variant
