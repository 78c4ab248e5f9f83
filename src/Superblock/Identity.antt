-- ===== src/Superblock/Identity.antt =====
-- The kind, the identifier and the label of a superblock of any kind: crates/superblock/src/lib.rs.
use disks_rs.Base.{List, ℕ, Result, ok, ok_or}
use disks_rs.Superblock.Detect.{Kind, Superblock}
use disks_rs.Superblock.Labels.{
  ext4_label, btrfs_label, f2fs_label, luks2_label, xfs_label, fat_label, ext4_uuid, btrfs_uuid,
  f2fs_uuid, luks2_uuid, xfs_uuid, fat_uuid,
}

pub data UnicodeError : Type 0 where
  invalid_utf8 invalid_utf16 : UnicodeError

-- `Superblock::kind`
unfoldable pub kind : Superblock → Kind
kind s = s.kind

abbrev label_of : Kind → List ℕ → Result UnicodeError (List ℕ)
label_of Kind.btrfs block = ok_or (btrfs_label block) invalid_utf8
label_of Kind.ext4 block = ok_or (ext4_label block) invalid_utf8
label_of Kind.f2fs block = ok_or (f2fs_label block) invalid_utf16
label_of Kind.luks2 block = ok_or (luks2_label block) invalid_utf8
label_of Kind.xfs block = ok_or (xfs_label block) invalid_utf8
label_of Kind.fat block = ok (fat_label block)

-- `Superblock::label`
unfoldable pub label : Superblock → Result UnicodeError (List ℕ)
label s = label_of s.kind s.block

module _ (hyphenated : List ℕ → List ℕ) where
  abbrev uuid_of : Kind → List ℕ → Result UnicodeError (List ℕ)
  uuid_of Kind.btrfs block = ok (btrfs_uuid hyphenated block)
  uuid_of Kind.ext4 block = ok (ext4_uuid hyphenated block)
  uuid_of Kind.f2fs block = ok (f2fs_uuid hyphenated block)
  uuid_of Kind.luks2 block = ok_or (luks2_uuid block) invalid_utf8
  uuid_of Kind.xfs block = ok (xfs_uuid hyphenated block)
  uuid_of Kind.fat block = ok (fat_uuid block)

  -- `Superblock::uuid`
  unfoldable pub uuid : Superblock → Result UnicodeError (List ℕ)
  uuid s = uuid_of s.kind s.block
