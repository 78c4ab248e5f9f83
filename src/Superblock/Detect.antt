-- ===== src/Superblock/Detect.antt =====
-- Detection of superblocks: crates/superblock/src/lib.rs. The cursor's reads are those of
-- `std::io::Cursor`; a struct that is read is its block of bytes.
use disks_rs.Base.{
  ℕ, ◌+◌, ◌*◌, String, Option, none, some, List, [], ◌∷◌, leb, Exec, Outcome, done, fail, continue,
  if◌then◌else◌,
}
use disks_rs.Superblock.Format.{Format, Bytes, slice, size_of}
use disks_rs.Superblock.Ext4
use disks_rs.Superblock.Btrfs
use disks_rs.Superblock.F2fs
use disks_rs.Superblock.Xfs
use disks_rs.Superblock.Luks2
use disks_rs.Superblock.Fat

pub data Error : Type 0 where
  io unknown_superblock : Error

pub data Kind : Type 0 where
  btrfs ext4 luks2 f2fs xfs fat : Kind

-- `impl Display for Kind`
unfoldable pub kind_to_string : Kind → String
kind_to_string Kind.btrfs = "btrfs"
kind_to_string Kind.ext4 = "ext4"
kind_to_string Kind.luks2 = "luks2"
kind_to_string Kind.f2fs = "f2fs"
kind_to_string Kind.xfs = "xfs"
kind_to_string Kind.fat = "fat"

-- `Superblock` by its variant and the block in it.
pub record Superblock : Type 0 where
  pub kind : Kind
  pub block : List ℕ

-- The reader at a position.
pub record Cursor : Type 0 where
  pub bytes : Bytes
  pub position : ℕ

-- `Cursor::new`
abbrev pub start : Bytes → Cursor
start b = record { bytes = b; position = 0 }

abbrev pub seek : ℕ → Exec Error Cursor Unit
seek at c = done tt (record c { position = at })

-- `read_exact` into a buffer of `n` bytes, which runs to the end where there are too few.
abbrev pub read_exact : ℕ → Exec Error Cursor (List ℕ)
read_exact n c =
    if leb (c.position + n) c.bytes.length
    then done (slice c.bytes c.position n) (record c { position = c.position + n })
    else fail io (record c { position = c.bytes.length })

-- `read_from_bytes` on a buffer of the struct's own size always succeeds.
unfoldable pub detect_superblock : Format → Exec Error Cursor (Option (List ℕ))
detect_superblock f c = continue (seek f.magic_offset c) (λ _ c1.
    continue (read_exact f.magic_size c1) (λ magic c2.
      if f.is_valid_magic magic
      then continue (seek f.offset c2)
          (λ _ c3. continue (read_exact (size_of f.fields) c3) (λ block c4. done (some block) c4))
      else done none c2))

-- The formats in the order in which they are tried.
abbrev pub candidates : List (Kind × Format)
candidates =
    (Kind.ext4, Ext4.ext4)
    ∷ (Kind.btrfs, Btrfs.btrfs)
    ∷ (Kind.f2fs, F2fs.f2fs)
    ∷ (Kind.xfs, Xfs.xfs)
    ∷ (Kind.luks2, Luks2.luks2)
    ∷ (Kind.fat, Fat.fat)
    ∷ []

-- The uses of `try_detect!` one after the other.
unfoldable pub try_detect : List (Kind × Format) → Exec Error Cursor Superblock
try_detect [] c = fail unknown_superblock c
try_detect (f ∷ fs) c = continue (detect_superblock f.1 c) (λ found c'. elim found [
  | some block ↦ done (record { kind = f.0; block = block }) c'
  | none ↦ try_detect fs c'
])

-- `Superblock::from_bytes`
unfoldable pub from_bytes : Bytes → Outcome Error Cursor Superblock
unfolding try_detect
from_bytes b = try_detect candidates (start b)

abbrev pub preallocated : ℕ
preallocated = 128 * 1024

-- `Superblock::from_reader`: `rewind`, `read_exact` of the preallocated buffer, `from_bytes`.
unfoldable pub from_reader : Bytes → Outcome Error Cursor Superblock
unfolding from_bytes
from_reader reader =
    continue (read_exact preallocated (start reader))
      (λ _ c. from_bytes (record reader { length = preallocated }))
