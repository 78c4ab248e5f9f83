-- ===== src/Disks/Discovery.antt =====
-- Recognising devices by their names and discovering them: crates/disks/src/{scsi,nvme,mmc,virt,
-- loopback,lib}.rs. The classes of characters and the regex crate are parameters.
use Prim.Native.Char.{Char, code}
use disks_rs.Base.{
  String, Bool, true, false, Option, none, some, List, [], ◌∷◌, Result, ok, err, ltb, ◌==◌,
  if◌then◌else◌,
}
use disks_rs.Base.Parse.{all_chars, strip_prefix}
use disks_rs.Base.Sort.{sort_by}
use disks_rs.Disks.Defs.{
  FilePath, root_dir, normal, dev_path, BasicDisk, scsi, nvme, mmc, virtual, LoopDevice,
  BlockDevice, disk, loopback,
}
use disks_rs.Disks.Sysfs.{
  FileSystem, OsString, sysfs_dir, sysfs_node, read_path, basic_from_sysfs_path,
}

-- `char::is_alphabetic` and `char::is_numeric`, which read the tables of Unicode, and
-- `Regex::is_match` of the regex crate with its pattern and its text.
pub record Classes : Type 0 where
  pub is_alphabetic : Char → Bool
  pub is_numeric : Char → Bool
  pub is_match : String → String → Bool

-- The errors of discovery: those of the operating system and the program's own.
pub data DiscoveryError : Type 0 where
  os_error : DiscoveryError
  -- `io::ErrorKind::NotFound`
  not_found : String → DiscoveryError

abbrev pub nvme_pattern : String
nvme_pattern = "^nvme\\d+n\\d+$"

abbrev pub mmc_pattern : String
mmc_pattern = "^mmcblk\\d+$"

-- A prefix and a test of all characters behind it.
abbrev pub has_form : String → (Char → Bool) → String → Bool
has_form prefix p name = elim (strip_prefix prefix name) [
  | none ↦ false
  | some rest ↦ all_chars p rest
]

abbrev pub or_else {ℓ} : {T : Type ℓ} → Option T → Option T → Option T
or_else (some a) other = some a
or_else none other = other

abbrev pub wrap {ℓ κ} : {T : Type ℓ} {U : Type κ} → (T → U) → Option T → Option U
wrap f none = none
wrap f (some a) = some (f a)

-- The order of texts by their bytes, which is that by their characters.
abbrev pub text_after : String → String → Bool
text_after String.[] t = false
text_after (String.◌∷◌ c s) String.[] = true
text_after (String.◌∷◌ c s) (String.◌∷◌ d t) =
    let rest = text_after s t in
    if ltb (code d) (code c) then true else if code c == code d then rest else false

-- The names of the entries that are text.
abbrev pub names_of : List (Option OsString) → List String
names_of [] = []
names_of (none ∷ entries) = names_of entries
names_of (some e ∷ entries) =
    let rest = names_of entries in elim e.to_str [ none ↦ rest | some n ↦ n ∷ rest ]

module _ (c : Classes) (fs : FileSystem) where
  -- `from_sysfs_path` of `scsi::Disk`, `nvme::Disk`, `mmc::Disk` and `virt::Disk`
  unfoldable pub scsi_from_sysfs_path : FilePath → String → Option BasicDisk
  unfolding basic_from_sysfs_path
  scsi_from_sysfs_path sysroot name =
      if has_form "sd" c.is_alphabetic name then basic_from_sysfs_path fs sysroot name else none

  unfoldable pub nvme_from_sysfs_path : FilePath → String → Option BasicDisk
  nvme_from_sysfs_path sysroot name =
      if c.is_match nvme_pattern name then basic_from_sysfs_path fs sysroot name else none

  unfoldable pub mmc_from_sysfs_path : FilePath → String → Option BasicDisk
  mmc_from_sysfs_path sysroot name =
      if c.is_match mmc_pattern name then basic_from_sysfs_path fs sysroot name else none

  unfoldable pub virt_from_sysfs_path : FilePath → String → Option BasicDisk
  virt_from_sysfs_path sysroot name =
      if has_form "vd" c.is_alphabetic name then basic_from_sysfs_path fs sysroot name else none

  -- `loopback::Device::from_sysfs_path`
  unfoldable pub loop_from_sysfs_path : FilePath → String → Option LoopDevice
  loop_from_sysfs_path sysroot name =
      let matching = has_form "loop" c.is_numeric name in
      let node = sysfs_node sysroot name in
      let file = read_path fs node (normal "loop" ∷ normal "backing_file" ∷ []) in
      let d : Option BasicDisk = elim file [
        | none ↦ none
        | some f ↦ basic_from_sysfs_path fs sysroot name
      ] in
      if matching
      then some (record { name = name; device = dev_path name; file = file; disk = d })
      else none

  -- The chain of `BlockDevice::from_sysfs_path`: the first kind that takes the device.
  unfoldable pub recognise : FilePath → String → Option BlockDevice
  unfolding scsi_from_sysfs_path nvme_from_sysfs_path mmc_from_sysfs_path virt_from_sysfs_path
      loop_from_sysfs_path
  recognise sysroot name = or_else (wrap (λ d. disk (scsi d)) (scsi_from_sysfs_path sysroot name)) (
      or_else (wrap (λ d. disk (nvme d)) (nvme_from_sysfs_path sysroot name)) (
        or_else (wrap (λ d. disk (mmc d)) (mmc_from_sysfs_path sysroot name)) (
          or_else (wrap (λ d. disk (virtual d)) (virt_from_sysfs_path sysroot name))
            (wrap loopback (loop_from_sysfs_path sysroot name)))))

  -- `BlockDevice::from_sysfs_path`
  unfoldable pub from_sysfs_path : FilePath → String → Result DiscoveryError BlockDevice
  unfolding recognise
  from_sysfs_path sysroot name = elim (recognise sysroot name) [
    | none ↦ err (not_found "Device not found")
    | some b ↦ ok b
  ]

  -- The loop over the names: a name that is no device's is left out.
  unfoldable pub devices_of : FilePath → List String → List BlockDevice
  devices_of sysroot [] = []
  devices_of sysroot (name ∷ names) =
      let rest = devices_of sysroot names in
      elim (from_sysfs_path sysroot name) [ err e ↦ rest | ok d ↦ d ∷ rest ]

  -- `BlockDevice::discover_in_sysroot`
  unfoldable pub discover_in_sysroot : FilePath → Result DiscoveryError (List BlockDevice)
  unfolding devices_of sort_by
  discover_in_sysroot sysroot = elim (fs.read_dir (sysfs_dir sysroot)) [
    | none ↦ err os_error
    | some entries ↦ ok (devices_of sysroot (sort_by text_after (names_of entries)))
  ]

  -- `BlockDevice::discover`
  unfoldable pub discover : Result DiscoveryError (List BlockDevice)
  unfolding discover_in_sysroot
  discover = discover_in_sysroot (root_dir ∷ [])

  -- `loopback::Device::from_device_path`: the last component is the name.
  unfoldable pub from_device_path : FilePath → Option LoopDevice
  from_device_path [] = none
  from_device_path (normal n ∷ []) = loop_from_sysfs_path (root_dir ∷ []) n
  from_device_path (_ ∷ []) = none
  from_device_path (_ ∷ d ∷ path) = from_device_path (d ∷ path)
