-- ===== src/Superblock/Luks2.antt =====
-- The LUKS2 header: crates/superblock/src/luks2/superblock.rs.
use disks_rs.Base.{ℕ, List, [], ◌∷◌, ◌||◌}
use disks_rs.Superblock.Format.{Field, field, Format, bytes_eq}

abbrev pub fields : List Field
fields =
    field "magic" 6
    ∷ field "version" 2
    ∷ field "hdr_size" 8
    ∷ field "seqid" 8
    ∷ field "label" 48
    ∷ field "checksum_alg" 32
    ∷ field "salt" 64
    ∷ field "uuid" 40
    ∷ field "subsystem" 48
    ∷ field "hdr_offset" 8
    ∷ field "padding" 184
    ∷ field "csum" 64
    ∷ field "padding4096" 3584
    ∷ []

-- `MagicMatch`
abbrev pub luks2_magic : List ℕ
luks2_magic = 0x4C ∷ 0x55 ∷ 0x4B ∷ 0x53 ∷ 0xBA ∷ 0xBE ∷ []

abbrev pub skul2_magic : List ℕ
skul2_magic = 0x53 ∷ 0x4B ∷ 0x55 ∷ 0x4C ∷ 0xBA ∷ 0xBE ∷ []

-- `impl Detection for Luks2`
abbrev pub luks2 : Format
luks2 = record {
  offset = 0;
  magic_offset = 0;
  magic_size = 6;
  is_valid_magic = λ m. bytes_eq m luks2_magic || bytes_eq m skul2_magic;
  fields = fields;
}
