-- ===== src/Kdl/Nodes.antt =====
-- Filesystem nodes: crates/types/src/filesystem.rs, `Filesystem::from_kdl_node`.
use disks_rs.Base.{
  ℕ, String, Option, none, some, List, [], ◌∷◌, Result, ok, err, ◌>>=◌, ok_or, if◌then◌else◌,
}
use disks_rs.Base.Text.{concat, str_eq}
use disks_rs.Base.Int.{to_u32}
use disks_rs.Types.{
  Error, unsupported_node, invalid_arguments, Filesystem, fat32, standard, filesystem_type_from_str,
}
use disks_rs.Kdl.{Kdl, get_kdl_entry, kdl_value_to_string, kdl_value_to_integer}

-- The variables of the loop over the children.
pub record Found : Type 0 where
  pub fs_type : Option String
  pub label : Option String
  pub uuid : Option String
  pub volume_id : Option ℕ

module _ {N E S : Type 0} (k : Kdl N E S) where
  abbrev pub text_of : N → Result (Error S) String
  text_of node = do entry ← get_kdl_entry k node 0; kdl_value_to_string k entry

  -- One round of the loop.
  unfoldable pub read_child : N → Found → Result (Error S) Found
  read_child node f =
      if str_eq (k.name node) "type"
      then (do t ← text_of node; ok (record f { fs_type = some t }))
      else if str_eq (k.name node) "label"
      then (do t ← text_of node; ok (record f { label = some t }))
      else if str_eq (k.name node) "uuid"
      then (do t ← text_of node; ok (record f { uuid = some t }))
      else if str_eq (k.name node) "volume_id"
      then (do
        entry ← get_kdl_entry k node 0
        v ← kdl_value_to_integer k entry
        ok (record f { volume_id = some (to_u32 v) }))
      else err (unsupported_node (k.span node) (k.name node))

  unfoldable pub read_children : List N → Found → Result (Error S) Found
  read_children [] f = ok f
  read_children (node ∷ nodes) f = read_child node f >>= λ g. read_children nodes g

  -- The match on the filesystem type.
  unfoldable pub finish : N → String → Found → Result (Error S) Filesystem
  finish node fs_type f =
      if str_eq fs_type "fat32"
      then elim f.uuid [
        | some _ ↦ err (invalid_arguments (k.span node) (some "FAT32 does not support UUID"))
        | none ↦ ok (fat32 f.label f.volume_id)
      ]
      else elim f.volume_id [
        | some _ ↦ err (
            invalid_arguments (k.span node)
              (some (concat "volume_id is only supported for FAT32, not " fs_type)))
        | none ↦ do t ← filesystem_type_from_str fs_type; ok (standard t f.label f.uuid)
      ]

  -- `Filesystem::from_kdl_node`
  unfoldable pub filesystem_from_kdl_node : N → Result (Error S) Filesystem
  unfolding read_child read_children finish
  filesystem_from_kdl_node node = do
    f ←
        read_children (k.iter_children node)
          (record { fs_type = none; label = none; uuid = none; volume_id = none })
    t ← ok_or f.fs_type (unsupported_node (k.span node) "type")
    finish node t f
