-- ===== src/Superblock/Examples.antt =====
-- The theorems on superblocks at concrete bytes.
use disks_rs.Base.{
  ℕ, ◌≡◌, refl, arith, ◌==◌, Option, none, some, done, List, [], ◌∷◌, ◌++◌, replicate, find,
  if◌then◌else◌,
}
use disks_rs.Superblock.Format.{Bytes, slice, bytes_eq}
use disks_rs.Superblock.Detect.{Kind, Superblock, Cursor, candidates, from_bytes, detect_superblock}
use disks_rs.Superblock.Found.{is_match, chosen, from_bytes-first}
use disks_rs.Superblock.Magic.{Carries, from_bytes-Carries}
use disks_rs.Superblock.Labels.{fat_label, fat_type}
use disks_rs.Superblock.VolumeId.{fat_label-padded}
use disks_rs.Superblock.Config.{Luks2Config, hdr_size, read_config}
use disks_rs.Superblock.ConfigArea.{read_config-padded}

-- 128 KiB with the magic number of XFS alone.
abbrev xfs_image : Bytes
xfs_image = record {
  length = 131072;
  byte = λ i.
      if i == 0
      then 0x58
      else if i == 1
      then 0x46
      else if i == 2
      then 0x53
      else if i == 3
      then 0x42
      else 0;
}

from_bytes-first_example :
    (c : Cursor) × (from_bytes xfs_image
      ≡ chosen xfs_image c (find (is_match xfs_image) candidates))
from_bytes-first_example = from_bytes-first xfs_image (omega arith)

abbrev found : Superblock
found = record { kind = Kind.xfs; block = slice xfs_image 0 264 }

from_bytes-Carries_example : Carries found
unfolding from_bytes detect_superblock
from_bytes-Carries_example =
    from_bytes-Carries xfs_image found (record { bytes = xfs_image; position = 264 }) (omega arith)
      refl

abbrev short_image : Bytes
short_image = record { length = 1000; byte = λ i. 0 }

-- A block whose first bytes are "ab" and whose others are NUL.
abbrev labelled : ℕ → List ℕ
labelled at = replicate at 0 ++ 97 ∷ 98 ∷ replicate 256 0

-- A FAT16 block, whose label "ab" is padded with spaces.
abbrev fat_block : List ℕ
fat_block = replicate 43 0 ++ 97 ∷ 98 ∷ replicate 9 32 ++ replicate 36 0

fat_label-padded_example : fat_label fat_block ≡ 97 ∷ 98 ∷ []
unfolding fat_type
fat_label-padded_example =
    fat_label-padded fat_block (97 ∷ 98 ∷ []) 9 (omega arith, (omega arith, tt)) refl refl

-- A header of 4096 bytes and four more, and a device with "{}" behind the header.
abbrev header : List ℕ
header = replicate 14 0 ++ 0x10 ∷ 0x04 ∷ replicate 4080 0

abbrev luks2_device : Cursor
luks2_device = record {
  bytes = record {
    length = 8192;
    byte = λ i. if i == 4096 then b'{' else if i == 4097 then b'}' else 0;
  };
  position = 0;
}

-- A parser that knows "{}" alone.
abbrev empty_config : Luks2Config
empty_config = record {
  config = record { json_size = 0; keyslots_size = 0; flags = []; requirements = [] };
  keyslots = [];
  segments = [];
}

abbrev from_str : List ℕ → Option Luks2Config
from_str t = if bytes_eq t (b'{' ∷ b'}' ∷ []) then some empty_config else none

read_config-padded_example :
    read_config from_str header luks2_device
    ≡ done empty_config (record luks2_device { position = 4100 })
unfolding hdr_size
read_config-padded_example =
    read_config-padded from_str header luks2_device (b'{' ∷ b'}' ∷ []) 2 (omega arith) (omega arith)
      (omega arith) ((omega arith, omega arith), ((omega arith, omega arith), tt)) refl
