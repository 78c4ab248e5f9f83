-- ===== src/Disks/Examples.antt =====
-- The discovery of devices at a concrete file system.
use Prim.Native.Char.{code}
use mathlib.Core.List.{Perm}
use disks_rs.Base.{
  ℕ, ◌+◌, add64, ◌≤◌, ◌≡◌, refl, ◌&&◌, leb, String, Option, none, some, List, [], ◌∷◌, ok, err,
  arith, Pairwise, if◌then◌else◌,
}
use disks_rs.Base.Text.{str_eq, concat}
use disks_rs.Base.Parse.{is_ascii_digit, trim, parse_unsigned}
use disks_rs.Disks.Defs.{
  FilePath, root_dir, normal, dev_path, Partition, BasicDisk, disk, loopback, scsi, name,
  partition_path,
}
use disks_rs.Disks.Sysfs.{
  FileSystem, OsString, sysfs_node, partition_from_sysfs_path, basic_from_sysfs_path,
}
use disks_rs.Disks.Discovery.{
  Classes, nvme_pattern, not_found, discover_in_sysroot, from_sysfs_path,
}
use disks_rs.Disks.Names.{IsDocumented, after, digits, digits_n_digits}
use disks_rs.Disks.NotDevices.{partition_path-not_found}
use disks_rs.Disks.Listing.{Shown, basic_from_sysfs_path-Shown}

-- ASCII's classes, and the two patterns.
abbrev ascii : Classes
ascii = record {
  is_alphabetic = λ c. leb b'a' (code c) && leb (code c) b'z';
  is_numeric = is_ascii_digit;
  is_match = λ pattern s.
      if str_eq pattern nvme_pattern
      then after "nvme" (digits_n_digits is_ascii_digit) s
      else after "mmcblk" (digits is_ascii_digit) s;
}

ascii-IsDocumented : IsDocumented ascii
ascii-IsDocumented = record {
  ascii_digit = λ d h. ground arith;
  p_not_numeric = λ d h. ground arith;
  digit = is_ascii_digit;
  p_no_digit = λ d h. ground arith;
  nvme = λ s. refl;
  mmc = λ s. refl;
}

abbrev entry : String → Option OsString
entry s = some (record { to_str = some s; to_string_lossy = s })

abbrev root : FilePath
root = root_dir ∷ []

-- A path as a text, and a table of texts.
abbrev show : FilePath → String
show [] = ""
show (normal n ∷ p) = concat "/" (concat n (show p))
show (_ ∷ p) = show p

abbrev lookup {ℓ} : {T : Type ℓ} → String → List (String × T) → Option T
lookup k [] = none
lookup k (e ∷ t) = let rest = lookup k t in if str_eq k e.0 then some e.1 else rest

abbrev names : List (Option OsString)
names = entry "sda2" ∷ entry "loop0" ∷ entry "sda" ∷ none ∷ entry "sda1" ∷ []

abbrev in_sda : List (Option OsString)
in_sda = entry "sda2" ∷ entry "queue" ∷ entry "sda1" ∷ []

-- The disk sda with two partitions, and a loop device without a file.
abbrev files : FileSystem
files = record {
  read_dir =
      λ p. lookup (show p) (("/sys/class/block", names) ∷ ("/sys/class/block/sda", in_sda) ∷ []);
  read_to_string = λ p. lookup (show p) (
      ("/sys/class/block/sda/size", "4096\n")
      ∷ ("/sys/class/block/sda1/partition", "1\n")
      ∷ ("/sys/class/block/sda1/start", "34\n")
      ∷ ("/sys/class/block/sda1/size", "100\n")
      ∷ ("/sys/class/block/sda2/partition", "2\n")
      ∷ ("/sys/class/block/sda2/start", "200\n")
      ∷ ("/sys/class/block/sda2/size", "50\n")
      ∷ []);
}

abbrev partition : String → ℕ → ℕ → ℕ → Partition
partition n number start size = record {
  name = n;
  number = number;
  start = start;
  end = start + size;
  size = size;
  node = sysfs_node root n;
  device = dev_path n;
}

abbrev sda : BasicDisk
sda = record {
  name = "sda";
  sectors = 4096;
  device = dev_path "sda";
  model = none;
  vendor = none;
  partitions = partition "sda1" 1 34 100 ∷ partition "sda2" 2 200 50 ∷ [];
}

sda_found : from_sysfs_path ascii files root "sda" ≡ ok (disk (scsi sda))
unfolding from_sysfs_path parse_unsigned partition_from_sysfs_path trim add64
sda_found = refl

discovered :
    discover_in_sysroot ascii files root
    ≡ ok (
        loopback (record { name = "loop0"; device = dev_path "loop0"; file = none; disk = none })
        ∷ disk (scsi sda)
        ∷ [])
unfolding discover_in_sysroot from_sysfs_path parse_unsigned partition_from_sysfs_path trim add64
discovered = refl

sda_read : basic_from_sysfs_path files root "sda" ≡ some sda
unfolding basic_from_sysfs_path parse_unsigned partition_from_sysfs_path trim add64
sda_read = refl

partition_path-not_found_example :
    (m : String) × (partition_path (disk (scsi sda)) 1 ≡ dev_path m)
    × ((other : FileSystem)
        → from_sysfs_path ascii other root m ≡ err (not_found "Device not found"))
partition_path-not_found_example =
    partition_path-not_found ascii ascii-IsDocumented files root "sda" (disk (scsi sda)) 1 sda_found

basic_from_sysfs_path-Shown_example :
    (d : BasicDisk) × (ps : List Partition) × (basic_from_sysfs_path files root "sda" ≡ some d)
    × (d.name ≡ "sda")
    × Shown files root in_sda ps
    × Perm d.partitions ps
    × Pairwise (λ p q. p.number ≤ q.number) d.partitions
basic_from_sysfs_path-Shown_example = basic_from_sysfs_path-Shown files root "sda" in_sda refl
