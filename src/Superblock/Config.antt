-- ===== src/Superblock/Config.antt =====
-- The JSON configuration of LUKS2: crates/superblock/src/luks2/config.rs, luks2.rs and
-- `Luks2::read_config` in luks2/superblock.rs. serde's and serde_json's part is a parameter.
use disks_rs.Base.{
  ℕ, ◌+◌, ◌*◌, ◌^◌, String, Option, none, some, List, [], ◌∷◌, sub64, u64_mod, leb, ltb, Exec,
  Outcome, done, fail, panic, if◌then◌else◌,
}
use disks_rs.Base.Text.{decimal}
use disks_rs.Base.Parse.{parse_unsigned}
use disks_rs.Superblock.Format.{slice, size_of}
use disks_rs.Superblock.Detect.{Cursor}
use disks_rs.Superblock.Utf8.{from_utf8}
use disks_rs.Superblock.Labels.{bytes_of, trimmed}
use disks_rs.Superblock.Luks2

pub record Luks2Kdf : Type 0 where
  pub kdf_type : String
  pub salt : String
  pub hash : Option String
  pub iterations : Option ℕ
  pub time : Option ℕ
  pub memory : Option ℕ
  pub cpus : Option ℕ

pub record Luks2KeyslotArea : Type 0 where
  pub area_type : String
  pub offset : ℕ
  pub size : ℕ
  pub encryption : String
  pub key_size : ℕ

pub record Luks2Keyslot : Type 0 where
  pub slot_type : String
  pub key_size : ℕ
  pub area : Luks2KeyslotArea
  pub kdf : Luks2Kdf

pub record Luks2Segment : Type 0 where
  pub segment_type : String
  pub offset : String
  pub size : String
  pub iv_tweak : String
  pub encryption : String
  pub sector_size : ℕ

pub record Luks2ConfigData : Type 0 where
  pub json_size : ℕ
  pub keyslots_size : ℕ
  pub flags : List String
  pub requirements : List String

-- A hash map is the list of its entries.
pub record Luks2Config : Type 0 where
  pub config : Luks2ConfigData
  pub keyslots : List (ℕ × Luks2Keyslot)
  pub segments : List (ℕ × Luks2Segment)

-- `display_from_str::serialize` and `deserialize` of a `u64`: the text handed to the serializer,
-- and what is made of the text that the deserializer gives.
unfoldable pub serialize : ℕ → String
serialize value = decimal value

unfoldable pub deserialize : String → Option ℕ
deserialize s = parse_unsigned u64_mod s

pub data ConfigError : Type 0 where
  io invalid_json invalid_utf8 : ConfigError

-- The big-endian number of some bytes.
abbrev pub from_be : ℕ → List ℕ → ℕ
from_be value [] = value
from_be value (b ∷ bs) = from_be (value * 256 + b) bs

-- `hdr_size.get()`
unfoldable pub hdr_size : List ℕ → ℕ
hdr_size block = from_be 0 (bytes_of "hdr_size" Luks2.fields block)

-- The size of the header's struct, where the JSON area begins.
abbrev pub header_size : ℕ
header_size = size_of Luks2.fields

-- The length of a vector stays below 2 ^ 63; there is always memory for it.
abbrev pub capacity : ℕ
capacity = 2 ^ 63

-- What the text of the configuration comes to.
abbrev pub parsed : Cursor → Option Luks2Config → Outcome ConfigError Cursor Luks2Config
parsed c none = fail invalid_json c
parsed c (some config) = done config c

module _ (from_str : List ℕ → Option Luks2Config) where
  abbrev pub parse_config : Option (List ℕ) → Exec ConfigError Cursor Luks2Config
  parse_config none c = fail invalid_utf8 c
  parse_config (some raw_input) c = parsed c (from_str raw_input)

  -- The area of `n` bytes behind the header's struct.
  unfoldable pub read_area : ℕ → Exec ConfigError Cursor Luks2Config
  read_area n c =
      if leb (header_size + n) c.bytes.length
      then parse_config (trimmed (from_utf8 (slice c.bytes header_size n)))
          (record c { position = header_size + n })
      else fail io (record c { position = c.bytes.length })

  -- `Luks2::read_config`, with `serde_json::from_str`.
  unfoldable pub read_config : List ℕ → Exec ConfigError Cursor Luks2Config
  unfolding hdr_size read_area
  read_config block c =
      let n = sub64 (hdr_size block) 4096 in if ltb n capacity then read_area n c else panic
