-- ===== src/Disks/Sysfs.antt =====
-- Reading attributes of block devices: crates/disks/src/sysfs.rs, the reading of a partition in
-- partition.rs and of a disk in disk.rs. The file system is a parameter.
use Prim.Native.Char.{code}
use Prim.Native.String.{String}
use disks_rs.Base.{
  ℕ, Bool, Option, none, some, List, [], ◌∷◌, ◌++◌, ◌==◌, if◌then◌else◌, ltb, add64, u32_mod,
  u64_mod, ◌≡◌, refl,
}
use disks_rs.Base.Text.{str_eq}
use disks_rs.Base.Parse.{trim, parse_unsigned}
use disks_rs.Base.Sort.{sort_by}
use disks_rs.Disks.Defs.{
  root_dir, cur_dir, parent_dir, normal, FilePath, dev_path, Partition, BasicDisk,
}

-- The name of a directory entry: its text, if it is Unicode, and with replacements if it is not.
pub record OsString : Type 0 where
  pub to_str : Option String
  pub to_string_lossy : String

-- The file system as it is read: `none` is an error. An entry of a directory may fail as well.
pub record FileSystem : Type 0 where
  pub read_dir : FilePath → Option (List (Option OsString))
  pub read_to_string : FilePath → Option String

-- The parts of a text between the separators.
abbrev pub segments : String → List String
segments String.[] = "" ∷ []
segments (String.◌∷◌ c s) = elim (segments s) [
  | [] ↦ []
  | t ∷ ts ↦ if code c == b'/' then "" ∷ t ∷ ts else (String.◌∷◌ c t) ∷ ts
]

-- The components behind the first: empty parts and "." are left out.
abbrev pub later_components : List String → FilePath
later_components [] = []
later_components (t ∷ ts) =
    let rest = later_components ts in
    if str_eq t ""
    then rest
    else if str_eq t "."
    then rest
    else if str_eq t ".."
    then parent_dir ∷ rest
    else normal t ∷ rest

-- `PathBuf::from` by its components.
unfoldable pub path_of : String → FilePath
path_of s = elim (segments s) [
  | [] ↦ []
  | t ∷ [] ↦ if str_eq t "." then cur_dir ∷ [] else later_components (t ∷ [])
  | t ∷ u ∷ ts ↦
      if str_eq t ""
      then root_dir ∷ later_components (u ∷ ts)
      else if str_eq t "."
      then cur_dir ∷ later_components (u ∷ ts)
      else later_components (t ∷ u ∷ ts)
]

path_of_test :
    path_of "/sys//class/./block" ≡ root_dir ∷ normal "sys" ∷ normal "class" ∷ normal "block" ∷ []
unfolding path_of
path_of_test = refl

-- `SYSFS_DIR` joined to the root, and a device's directory there. A device's name is one
-- component, as the names of directory entries are.
abbrev pub sysfs_dir : FilePath → FilePath
sysfs_dir sysroot = sysroot ++ normal "sys" ∷ normal "class" ∷ normal "block" ∷ []

abbrev pub sysfs_node : FilePath → String → FilePath
sysfs_node sysroot name = sysfs_dir sysroot ++ normal name ∷ []

-- `sysroot.join(DEVFS_DIR).join(name)`
abbrev pub devfs_node : FilePath → String → FilePath
devfs_node sysroot name = sysroot ++ normal "dev" ∷ normal name ∷ []

-- `sort_by_key(|p| p.number)`
abbrev pub numbered_after : Partition → Partition → Bool
numbered_after p q = ltb q.number p.number

module _ (fs : FileSystem) where
  -- `sysfs::read`, with the type's `FromStr` as `parse`.
  unfoldable pub read {ℓ} : {T : Type ℓ} → (String → Option T) → FilePath → FilePath → Option T
  read parse node key = elim (fs.read_to_string (node ++ key)) [
    | none ↦ none
    | some text ↦ parse (trim text)
  ]

  abbrev pub read_u32 : FilePath → String → Option ℕ
  read_u32 node key = read (parse_unsigned u32_mod) node (normal key ∷ [])

  abbrev pub read_u64 : FilePath → String → Option ℕ
  read_u64 node key = read (parse_unsigned u64_mod) node (normal key ∷ [])

  -- `String` and `PathBuf` take any text.
  abbrev pub read_text : FilePath → FilePath → Option String
  read_text node key = read some node key

  abbrev pub read_path : FilePath → FilePath → Option FilePath
  read_path node key = read (λ s. some (path_of s)) node key

  -- `Partition::from_sysfs_path`
  unfoldable pub partition_from_sysfs_path : FilePath → String → Option Partition
  unfolding read
  partition_from_sysfs_path sysroot name =
      let node = sysfs_node sysroot name in
      elim (read_u32 node "partition") [
        | none ↦ none
        | some partition_no ↦ elim (read_u64 node "start") [
          | none ↦ none
          | some start ↦ elim (read_u64 node "size") [
            | none ↦ none
            | some size ↦ some (record {
              name = name;
              number = partition_no;
              start = start;
              end = add64 start size;
              size = size;
              node = node;
              device = devfs_node sysroot name;
            })
          ]
        ]
      ]

  -- The partitions of the entries of a disk's directory, in the directory's order.
  unfoldable pub partitions_of : FilePath → List (Option OsString) → List Partition
  partitions_of sysroot [] = []
  partitions_of sysroot (none ∷ entries) = partitions_of sysroot entries
  partitions_of sysroot (some e ∷ entries) =
      let rest = partitions_of sysroot entries in
      elim (partition_from_sysfs_path sysroot e.to_string_lossy) [ none ↦ rest | some p ↦ p ∷ rest ]

  -- `BasicDisk::from_sysfs_path`
  unfoldable pub basic_from_sysfs_path : FilePath → String → Option BasicDisk
  unfolding read partitions_of sort_by
  basic_from_sysfs_path sysroot name =
      let node = sysfs_node sysroot name in
      elim (fs.read_dir node) [
        | none ↦ none
        | some entries ↦ some (record {
          name = name;
          sectors = elim (read_u64 node "size") [ none ↦ 0 | some n ↦ n ];
          device = dev_path name;
          model = read_text node (normal "device" ∷ normal "model" ∷ []);
          vendor = read_text node (normal "device" ∷ normal "vendor" ∷ []);
          partitions = sort_by numbered_after (partitions_of sysroot entries);
        })
      ]
