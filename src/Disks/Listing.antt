-- ===== src/Disks/Listing.antt =====
-- The lists of devices and of partitions: crates/disks/src/lib.rs, `discover_in_sysroot`, and
-- disk.rs, the partitions of a disk.
use mathlib.Core.List.{Perm, append_assoc}
use mathlib.Core.List.Perm
use disks_rs.Base.{
  ℕ, add64, ◌++◌, none≢some, some-inj, ◌≤◌, ◌≡◌, ◌∙◌, ◌⊎◌, refl, sym, subst, inl, inr, String,
  false, Option, none, some, List, [], ◌∷◌, Pairwise, ok, err, arith,
}
use disks_rs.Base.Sort.{sort_by, sort_by-perm, sort_by-IsSorted}
use disks_rs.Disks.Defs.{FilePath, dev_path, normal, Partition, BasicDisk, BlockDevice, name}
use disks_rs.Disks.Sysfs.{
  FileSystem, OsString, read, read_text, sysfs_node, devfs_node, read_u32, read_u64,
  partition_from_sysfs_path, partitions_of, numbered_after, basic_from_sysfs_path,
}
use disks_rs.Disks.Discovery.{Classes, text_after, from_sysfs_path}

-- The order of texts.
infix 50 ◌≼◌
abbrev pub ◌≼◌ : String → String → Type 0
s ≼ t = text_after s t ≡ false

module _ (c : Classes) (fs : FileSystem) (root : FilePath) where
  device_of : String → Option BlockDevice
  device_of n = elim (from_sysfs_path c fs root n) [ err e ↦ none | ok d ↦ some d ]

-- What a partition's own directory says: its attributes are read as numbers.
pub record IsPartition (fs : FileSystem) (root : FilePath) (n : String) (p : Partition)
    : Type 0 where
  pub is_name : p.name ≡ n
  pub is_number : read_u32 fs (sysfs_node root n) "partition" ≡ some p.number
  pub is_start : read_u64 fs (sysfs_node root n) "start" ≡ some p.start
  pub is_size : read_u64 fs (sysfs_node root n) "size" ≡ some p.size
  pub is_end : p.end ≡ add64 p.start p.size
  pub is_node : p.node ≡ root ++ normal "sys" ∷ normal "class" ∷ normal "block" ∷ normal n ∷ []
  pub is_device : p.device ≡ root ++ normal "dev" ∷ normal n ∷ []

module _ (fs : FileSystem) (root : FilePath) where
  -- The entry whose name, as it is read, is the partition's.
  abbrev pub Names : Partition → Option OsString → Type 0
  Names p none = ⊥
  Names p (some e) = IsPartition fs root e.to_string_lossy p

  -- An entry whose three attributes are numbers.
  abbrev pub IsReadable : Option OsString → Type 0
  IsReadable none = ⊥
  IsReadable (some e) =
      (number start size : ℕ) × (read_u32 fs (sysfs_node root e.to_string_lossy) "partition"
        ≡ some number)
      × (read_u64 fs (sysfs_node root e.to_string_lossy) "start" ≡ some start)
      × (read_u64 fs (sysfs_node root e.to_string_lossy) "size" ≡ some size)

  -- The partition that the attributes make.
  abbrev of_attributes : String → ℕ → ℕ → ℕ → Partition
  of_attributes n number start size = record {
    name = n;
    number = number;
    start = start;
    end = add64 start size;
    size = size;
    node = sysfs_node root n;
    device = devfs_node root n;
  }

  attributes_read :
      (n : String) (a b c : Option ℕ) (p : Partition)
      → elim a [
        | none ↦ none
        | some number ↦ elim b [
          | none ↦ none
          | some start ↦ elim c [
            | none ↦ none
            | some size ↦ some (of_attributes n number start size)
          ]
        ]
      ]
        ≡ some p
      → (number start size : ℕ) × (a ≡ some number)
        × (b ≡ some start)
        × (c ≡ some size)
        × (of_attributes n number start size ≡ p)
  attributes_read n none b c p h = absurd (none≢some h)
  attributes_read n (some x) none c p h = absurd (none≢some h)
  attributes_read n (some x) (some y) none p h = absurd (none≢some h)
  attributes_read n (some x) (some y) (some z) p h = (x, y, z, refl, refl, refl, some-inj h)

  read-IsPartition :
      (n : String) (p : Partition)
      → partition_from_sysfs_path fs root n ≡ some p
      → IsPartition fs root n p
  unfolding partition_from_sysfs_path read
  read-IsPartition n p h =
      let (number, start, size, a, b, c, e) =
        attributes_read n (read_u32 fs (sysfs_node root n) "partition")
          (read_u64 fs (sysfs_node root n) "start") (read_u64 fs (sysfs_node root n) "size") p h in
      subst (IsPartition fs root n) e (record {
        is_name = refl;
        is_number = a;
        is_start = b;
        is_size = c;
        is_end = refl;
        is_node =
            append_assoc root (normal "sys" ∷ normal "class" ∷ normal "block" ∷ []) (normal n ∷ []);
        is_device = refl;
      })

  readable-read :
      (n : String) (number start size : ℕ)
      → read_u32 fs (sysfs_node root n) "partition" ≡ some number
      → read_u64 fs (sysfs_node root n) "start" ≡ some start
      → read_u64 fs (sysfs_node root n) "size" ≡ some size
      → partition_from_sysfs_path fs root n ≡ some (of_attributes n number start size)
  unfolding partition_from_sysfs_path read
  readable-read n number start size a b c = ground (arith, a, b, c)

  -- One partition for each readable entry, in the entries' order, and none for another.
  abbrev pub Shown : List (Option OsString) → List Partition → Type 0
  Shown [] ps = ps ≡ []
  Shown (o ∷ es) ps =
      ((IsReadable o → ⊥) × Shown es ps)
      ⊎ ((p : Partition) × (rest : List Partition) × (ps ≡ p ∷ rest) × Names p o × Shown es rest)

  first-Shown :
      (e : OsString) (es : List (Option OsString)) (ps : List Partition) (o : Option Partition)
      → partition_from_sysfs_path fs root e.to_string_lossy ≡ o
      → Shown es ps
      → Shown (some e ∷ es) (elim o [ none ↦ ps | some p ↦ p ∷ ps ])
  first-Shown e es ps none q h = inl (
    (λ (number, start, size, a, b, c).
        none≢some (sym q ∙ readable-read e.to_string_lossy number start size a b c)),
    h,
  )
  first-Shown e es ps (some p) q h = inr (p, ps, refl, read-IsPartition e.to_string_lossy p q, h)

  partitions_of-Shown : (es : List (Option OsString)) → Shown es (partitions_of fs root es)
  unfolding partitions_of
  partitions_of-Shown [] = refl
  partitions_of-Shown (none ∷ es) = inl ((λ r. r), partitions_of-Shown es)
  partitions_of-Shown (some e ∷ es) =
      first-Shown e es (partitions_of fs root es)
        (partition_from_sysfs_path fs root e.to_string_lossy) refl (partitions_of-Shown es)

  -- If a disk's directory can be read, the disk is read, under its name, and its partitions are those
  -- that the directory shows: one for each entry whose three attributes are numbers, with the
  -- attributes of that entry, and none for another. They are in the order of their numbers.
  pub basic_from_sysfs_path-Shown :
      (n : String) (entries : List (Option OsString))
      → fs.read_dir (sysfs_node root n) ≡ some entries
      → (d : BasicDisk) × (ps : List Partition) × (basic_from_sysfs_path fs root n ≡ some d)
        × (d.name ≡ n)
        × Shown entries ps
        × Perm d.partitions ps
        × Pairwise (λ p q. p.number ≤ q.number) d.partitions
  unfolding basic_from_sysfs_path
  basic_from_sysfs_path-Shown n entries h =
      let ps = partitions_of fs root entries in
      let node = sysfs_node root n in
      let disk : BasicDisk = record {
        name = n;
        sectors = elim (read_u64 fs node "size") [ none ↦ 0 | some x ↦ x ];
        device = dev_path n;
        model = read_text fs node (normal "device" ∷ normal "model" ∷ []);
        vendor = read_text fs node (normal "device" ∷ normal "vendor" ∷ []);
        partitions = sort_by numbered_after ps;
      } in
      (
        disk,
        ps,
        rw (h, basic_from_sysfs_path) refl,
        refl,
        partitions_of-Shown entries,
        sort_by-perm numbered_after ps,
        sort_by-IsSorted numbered_after (λ p q. p.number ≤ q.number) (λ p q t. ground arith)
            (λ p q t. ground arith) (λ p q r t u. omega arith) ps,
      )
