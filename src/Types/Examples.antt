-- ===== src/Types/Examples.antt =====
-- The theorems on texts at concrete values.
use disks_rs.Base.{◌≡◌, ◌↔◌, ok}
use disks_rs.Types.Roles.{PartitionRole, role_to_string, role_from_str}
use disks_rs.Types.RoundTrip.{role_from_str_iff}

role_from_str_iff_example :
    (role_from_str {S = Unit} "root" ≡ ok PartitionRole.root)
    ↔ ("root" ≡ role_to_string PartitionRole.root)
role_from_str_iff_example = role_from_str_iff Unit "root" PartitionRole.root
