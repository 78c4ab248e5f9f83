-- ===== src/Formatter/Arguments.antt =====
-- The commands that make filesystems, against a table of the tools and their flags:
-- crates/partitioning/src/formatter.rs.
use disks_rs.Base.{String, Bool, Option, none, some, List, [], ◌∷◌, ◌++◌, if◌then◌else◌}
use disks_rs.Base.Text.{concat, decimal}
use disks_rs.Types.{Filesystem, fat32, standard, StandardFilesystemType}
use disks_rs.Formatter.{Formatter, Command}

-- A tool's program, the flags of an identifier and of a label, the text of an
-- identifier, and what forces it.
pub record Tool : Type 0 where
  pub program : String
  pub id_flag : String
  pub id_text : String → String
  pub label_flag : String
  pub forcing : List String

-- The tools and their flags. The one for FAT asks for nothing that could be forced.
abbrev pub fat_tool : Tool
fat_tool = record {
  program = "mkfs.fat";
  id_flag = "-i";
  id_text = λ s. s;
  label_flag = "-n";
  forcing = [];
}

abbrev pub tool : StandardFilesystemType → Tool
tool StandardFilesystemType.ext4 = record {
  program = "mkfs.ext4";
  id_flag = "-U";
  id_text = λ s. s;
  label_flag = "-L";
  forcing = "-F" ∷ [];
}
tool StandardFilesystemType.f2fs = record {
  program = "mkfs.f2fs";
  id_flag = "-U";
  id_text = λ s. s;
  label_flag = "-l";
  forcing = "-f" ∷ [];
}
tool StandardFilesystemType.xfs = record {
  program = "mkfs.xfs";
  id_flag = "-m";
  id_text = concat "uuid=";
  label_flag = "-L";
  forcing = "-f" ∷ [];
}
tool StandardFilesystemType.swap = record {
  program = "mkswap";
  id_flag = "-U";
  id_text = λ s. s;
  label_flag = "-L";
  forcing = "-f" ∷ [];
}

-- A filesystem's tool, its identifier and its label.
abbrev pub tool_of : Filesystem → Tool
tool_of (fat32 label volume_id) = fat_tool
tool_of (standard t label uuid) = tool t

abbrev pub id_of : Filesystem → Option String
id_of (fat32 label none) = none
id_of (fat32 label (some n)) = some (decimal n)
id_of (standard t label uuid) = uuid

abbrev pub label_of : Filesystem → Option String
label_of (fat32 label volume_id) = label
label_of (standard t label uuid) = label

-- A flag and its value, if there is one.
abbrev pub flagged : String → (String → String) → Option String → List String
flagged flag text none = []
flagged flag text (some value) = flag ∷ text value ∷ []

abbrev pub documented : Filesystem → Bool → String → Command
documented fs force device = record {
  program = (tool_of fs).program;
  args =
      flagged (tool_of fs).id_flag (tool_of fs).id_text (id_of fs)
      ++ (flagged (tool_of fs).label_flag (λ s. s) (label_of fs)
          ++ ((if force then (tool_of fs).forcing else []) ++ device ∷ []));
}
