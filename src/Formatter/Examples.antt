-- ===== src/Formatter/Examples.antt =====
-- The theorem on arguments at the filesystem of the crate's test for ext4.
use disks_rs.Base.{true, some}
use disks_rs.Types.{standard, StandardFilesystemType}
use disks_rs.Formatter.{Formatter}

abbrev root : Formatter
root = record {
  filesystem = standard StandardFilesystemType.ext4 (some "root") (some "1234");
  force = true;
}
