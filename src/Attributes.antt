-- ===== src/Attributes.antt =====
-- The attributes of a partition: crates/partitioning/src/attributes.rs. `G` is `partition_types::Type`
-- of the `gpt` crate, `U` is `Uuid`.
use disks_rs.Base.{String, Option, none, some}
use disks_rs.Types.{PartitionRole, Filesystem}

pub record GptAttributes (G U : Type 0) : Type 0 where
  pub type_guid : G
  pub name : Option String
  pub uuid : Option U

pub data TableAttributes (G U : Type 0) : Type 0 where
  gpt : GptAttributes G U → TableAttributes G U

pub record PartitionAttributes (G U : Type 0) : Type 0 where
  pub table : TableAttributes G U
  pub role : Option PartitionRole
  pub filesystem : Option Filesystem

module _ {G U : Type 0} where
  -- `Default for GptAttributes`, with `partition_types::BASIC`
  abbrev pub default : G → GptAttributes G U
  default basic = record { type_guid = basic; name = none; uuid = none }

  abbrev pub as_gpt : TableAttributes G U → Option (GptAttributes G U)
  as_gpt (gpt attributes) = some attributes
