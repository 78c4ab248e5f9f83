-- ===== src/Superblock/ConfigArea.antt =====
-- Reading the JSON area of a LUKS2 header: crates/superblock/src/luks2/superblock.rs, `read_config`,
-- and the numbers in it (luks2/config.rs, `display_from_str`).
use disks_rs.Base.{
  ℕ, ◌+◌, ◌-◌, ◌≤◌, ◌<◌, ◌≡◌, ap, ◌∙◌, Option, some, List, ◌++◌, replicate, sub64, sub64-eq,
  u64_mod, arith, le→leb, gt→leb, lt→ltb, ge→ltb, fail, panic,
}
use disks_rs.Base.Numerals.{parse_unsigned-decimal}
use disks_rs.Superblock.Format.{slice}
use disks_rs.Superblock.Detect.{Cursor}
use disks_rs.Superblock.Utf8.{from_utf8}
use disks_rs.Superblock.Padded.{IsText, trimmed-padded}
use disks_rs.Superblock.Labels.{trimmed}
use disks_rs.Superblock.Config.{
  Luks2Config, io, serialize, deserialize, hdr_size, header_size, capacity, parsed, parse_config,
  read_area, read_config,
}

-- A number below 2 ^ 64 is read back from the text that it is written as.
pub deserialize-serialize : (n : ℕ) → n < u64_mod → deserialize (serialize n) ≡ some n
unfolding deserialize serialize
deserialize-serialize n h = parse_unsigned-decimal u64_mod n h

module _ (from_str : List ℕ → Option Luks2Config) (c : Cursor) where
  read_area-padded :
      (k : ℕ) (t : List ℕ) (n : ℕ)
      → header_size + k ≤ c.bytes.length
      → IsText t
      → slice c.bytes header_size k ≡ t ++ replicate n 0
      → read_area from_str k c ≡ parsed (record c { position = header_size + k }) (from_str t)
  unfolding read_area
  read_area-padded k t n fits text e = rw (le→leb _ _ fits) (
      ap (λ l. parse_config from_str l (record c { position = header_size + k }))
        (ap (λ l. trimmed (from_utf8 l)) e ∙ trimmed-padded t n text))

  read_area-short :
      (k : ℕ)
      → c.bytes.length < header_size + k
      → read_area from_str k c ≡ fail io (record c { position = c.bytes.length })
  unfolding read_area
  read_area-short k h = rw (gt→leb _ _ h)

module _ (from_str : List ℕ → Option Luks2Config) (block : List ℕ) (c : Cursor) where
  area :
      4096 ≤ hdr_size block
      → hdr_size block < capacity
      → read_config from_str block c ≡ read_area from_str (hdr_size block - 4096) c
  unfolding read_config
  area lo hi =
      let e : sub64 (hdr_size block) 4096 ≡ hdr_size block - 4096 =
        sub64-eq (hdr_size block) 4096 lo (omega arith) in
      rw (e, lt→ltb (hdr_size block - 4096) capacity (omega arith))

  -- If the header's size is from 4096 on, below 2 ^ 63 and within the device, and the area behind
  -- the struct holds an ASCII text without NULs, padded with NULs, then reading the configuration
  -- gives what the JSON parser makes of exactly that text, and the reader stands behind the area.
  pub read_config-padded :
      (t : List ℕ) (n : ℕ)
      → 4096 ≤ hdr_size block
      → hdr_size block < capacity
      → hdr_size block ≤ c.bytes.length
      → IsText t
      → slice c.bytes header_size (hdr_size block - 4096) ≡ t ++ replicate n 0
      → read_config from_str block c ≡ parsed (record c { position = hdr_size block }) (from_str t)
  read_config-padded t n lo hi fits text e =
      area lo hi
      ∙ read_area-padded from_str c (hdr_size block - 4096) t n (omega arith) text e
      ∙ ap (λ k. parsed (record c { position = k }) (from_str t)) (omega arith)

  -- A header's size below 4096 makes the call panic, whatever the device holds.
  pub read_config-small : hdr_size block < 4096 → read_config from_str block c ≡ panic
  unfolding read_config sub64
  read_config-small h = rw (ge→ltb (sub64 (hdr_size block) 4096) capacity (omega arith))

  -- A device that ends before the area does is an error of reading.
  pub read_config-short :
      4096 ≤ hdr_size block
      → hdr_size block < capacity
      → c.bytes.length < hdr_size block
      → read_config from_str block c ≡ fail io (record c { position = c.bytes.length })
  read_config-short lo hi h =
      area lo hi ∙ read_area-short from_str c (hdr_size block - 4096) (omega arith)
