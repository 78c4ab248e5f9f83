-- ===== src/Disks/Defs.antt =====
-- The device types of crates/disks and their accessors: src/partition.rs, disk.rs, mock.rs,
-- loopback.rs and lib.rs. Sizes and positions on disks are counted in sectors of 512 bytes.
use disks_rs.Base.{
  ℕ, ◌+◌, ◌/◌, String, Bool, true, false, Option, none, some, List, [], ◌∷◌, ◌++◌, length, mul64,
  sub64, u32_mod, ◌%◌, ◌≡◌, refl, if◌then◌else◌,
}
use disks_rs.Base.Text.{decimal, concat}

-- `std::path::Component`, without the prefixes of other systems.
pub data Component : Type 0 where
  root_dir cur_dir parent_dir : Component
  normal : String → Component

abbrev pub FilePath : Type 0
FilePath = List Component

-- "/dev" joined with a name
abbrev pub dev_path : String → FilePath
dev_path name = root_dir ∷ normal "dev" ∷ normal name ∷ []

-- Positions and size are in sectors.
pub record Partition : Type 0 where
  pub name : String
  pub number : ℕ
  pub start : ℕ
  pub end : ℕ
  pub size : ℕ
  pub node : FilePath
  pub device : FilePath

pub record BasicDisk : Type 0 where
  pub name : String
  pub sectors : ℕ
  pub device : FilePath
  pub model : Option String
  pub vendor : Option String
  pub partitions : List Partition

pub record MockDisk : Type 0 where
  pub basic_disk : BasicDisk
  pub parts_prefix : Bool

pub data Disk : Type 0 where
  scsi mmc nvme virtual : BasicDisk → Disk
  mock : MockDisk → Disk

-- `loopback::Device`
pub record LoopDevice : Type 0 where
  pub name : String
  pub device : FilePath
  pub file : Option FilePath
  pub disk : Option BasicDisk

pub data BlockDevice : Type 0 where
  disk : Disk → BlockDevice
  loopback : LoopDevice → BlockDevice

-- `Deref for Disk`
abbrev pub deref : Disk → BasicDisk
deref (scsi d) = d
deref (mmc d) = d
deref (nvme d) = d
deref (virtual d) = d
deref (mock d) = d.basic_disk

unfoldable pub sectors : BlockDevice → ℕ
sectors (disk d) = (deref d).sectors
sectors (loopback l) = elim l.disk [ none ↦ 0 | some d ↦ d.sectors ]

unfoldable pub size : BlockDevice → ℕ
unfolding sectors
size b = mul64 (sectors b) 512

unfoldable pub partitions : BlockDevice → List Partition
partitions (disk d) = (deref d).partitions
partitions (loopback l) = elim l.disk [ none ↦ [] | some d ↦ d.partitions ]

unfoldable pub name : BlockDevice → String
name (disk d) = (deref d).name
name (loopback l) = l.name

unfoldable pub device : BlockDevice → FilePath
device (disk d) = (deref d).device
device (loopback l) = l.device

-- `MockDisk::new_with_name`
unfoldable pub new_with_name : String → ℕ → Bool → MockDisk
new_with_name name size_bytes parts_prefix = record {
  basic_disk = record {
    name = name;
    sectors = size_bytes / 512;
    device = dev_path name;
    model = some "Mock Device";
    vendor = some "Mock Vendor";
    partitions = [];
  };
  parts_prefix = parts_prefix;
}

-- `MockDisk::new`
unfoldable pub new_mock : ℕ → MockDisk
unfolding new_with_name
new_mock size_bytes = new_with_name "mock0" size_bytes false

-- `MockDisk::add_partition`
unfoldable pub add_partition : ℕ → ℕ → MockDisk → MockDisk
add_partition start_bytes end_bytes m =
    let number = length m.basic_disk.partitions + 1 in
    let start = start_bytes / 512 in
    let end = end_bytes / 512 in
    record m {
      basic_disk = record m.basic_disk {
        partitions =
            m.basic_disk.partitions
            ++ record {
              name = concat "mock0p" (decimal number);
              number = number % u32_mod;
              start = start;
              end = end;
              size = sub64 end start;
              node =
                  root_dir
                  ∷ normal "sys"
                  ∷ normal "class"
                  ∷ normal "block"
                  ∷ normal "mock0"
                  ∷ normal "mock0p1"
                  ∷ [];
              device = dev_path (concat "mock0p" (decimal number));
            }
              ∷ [];
      };
    }

-- `BlockDevice::mock_device`
unfoldable pub mock_device : MockDisk → BlockDevice
mock_device m = disk (mock m)

-- `Path::with_file_name`: the last component is replaced, if it is a name.
abbrev pub with_file_name : FilePath → String → FilePath
with_file_name [] n = normal n ∷ []
with_file_name (root_dir ∷ []) n = root_dir ∷ normal n ∷ []
with_file_name (cur_dir ∷ []) n = cur_dir ∷ normal n ∷ []
with_file_name (parent_dir ∷ []) n = parent_dir ∷ normal n ∷ []
with_file_name (normal c ∷ []) n = normal n ∷ []
with_file_name (c ∷ d ∷ rest) n = c ∷ with_file_name (d ∷ rest) n

-- The suffixes `{}{}` and `{}p{}` of a device's name.
abbrev pub bare : String → ℕ → String
bare name index = concat name (decimal index)

abbrev pub with_p : String → ℕ → String
with_p name index = concat name (concat "p" (decimal index))

unfoldable pub partition_path : BlockDevice → ℕ → FilePath
partition_path (disk (scsi d)) index = with_file_name d.device (bare d.name index)
partition_path (disk (virtual d)) index = with_file_name d.device (bare d.name index)
partition_path (disk (mock m)) index =
    if m.parts_prefix
    then dev_path (with_p m.basic_disk.name index)
    else dev_path (bare m.basic_disk.name index)
partition_path (disk (mmc d)) index = with_file_name d.device (with_p d.name index)
partition_path (disk (nvme d)) index = with_file_name d.device (with_p d.name index)
partition_path (loopback l) index = with_file_name l.device (with_p l.name index)

-- The paths of the tests of crates/disks/src/lib.rs.
abbrev TestPartitionPaths : Type 0
TestPartitionPaths =
    (partition_path (mock_device (new_with_name "sda" 1000 false)) 1 ≡ dev_path "sda1")
    × (partition_path (mock_device (new_with_name "sda" 1000 false)) 2 ≡ dev_path "sda2")
    × (partition_path (mock_device (new_with_name "nvme0n1" 1000 true)) 1 ≡ dev_path "nvme0n1p1")
    × (partition_path (mock_device (new_with_name "nvme0n1" 1000 true)) 2 ≡ dev_path "nvme0n1p2")

partition_paths_pass : TestPartitionPaths
unfolding partition_path mock_device new_with_name decimal
partition_paths_pass = (refl, refl, refl, refl)
