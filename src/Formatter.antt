-- ===== src/Formatter.antt =====
-- The commands that make filesystems: crates/partitioning/src/formatter.rs. A command is its program
-- and its arguments; `D` is the type of device paths, and `path` an argument for one.
pub mod Arguments
mod Examples
mod UnitTests
use disks_rs.Base.{
  ℕ, String, Bool, true, false, Option, none, some, List, [], ◌∷◌, ◌++◌, if◌then◌else◌,
}
use disks_rs.Base.Text.{concat, decimal}
use disks_rs.Types.{Filesystem, fat32, standard, StandardFilesystemType}

unfoldable pub mkfs_command : Filesystem → String
mkfs_command (fat32 label volume_id) = "mkfs.fat"
mkfs_command (standard StandardFilesystemType.f2fs label uuid) = "mkfs.f2fs"
mkfs_command (standard StandardFilesystemType.ext4 label uuid) = "mkfs.ext4"
mkfs_command (standard StandardFilesystemType.xfs label uuid) = "mkfs.xfs"
mkfs_command (standard StandardFilesystemType.swap label uuid) = "mkswap"

unfoldable pub uuid_arg : Filesystem → List String
uuid_arg (fat32 label none) = []
uuid_arg (fat32 label (some id)) = "-i" ∷ decimal id ∷ []
uuid_arg (standard t label none) = []
uuid_arg (standard StandardFilesystemType.ext4 label (some uuid)) = "-U" ∷ uuid ∷ []
uuid_arg (standard StandardFilesystemType.f2fs label (some uuid)) = "-U" ∷ uuid ∷ []
uuid_arg (standard StandardFilesystemType.xfs label (some uuid)) = "-m" ∷ concat "uuid=" uuid ∷ []
uuid_arg (standard StandardFilesystemType.swap label (some uuid)) = "-U" ∷ uuid ∷ []

unfoldable pub label_arg : Filesystem → List String
label_arg (fat32 none volume_id) = []
label_arg (fat32 (some label) volume_id) = "-n" ∷ label ∷ []
label_arg (standard t none uuid) = []
label_arg (standard StandardFilesystemType.ext4 (some label) uuid) = "-L" ∷ label ∷ []
label_arg (standard StandardFilesystemType.f2fs (some label) uuid) = "-l" ∷ label ∷ []
label_arg (standard StandardFilesystemType.xfs (some label) uuid) = "-L" ∷ label ∷ []
label_arg (standard StandardFilesystemType.swap (some label) uuid) = "-L" ∷ label ∷ []

unfoldable pub force_arg : Filesystem → List String
force_arg (fat32 label volume_id) = []
force_arg (standard StandardFilesystemType.f2fs label uuid) = "-f" ∷ []
force_arg (standard StandardFilesystemType.ext4 label uuid) = "-F" ∷ []
force_arg (standard StandardFilesystemType.xfs label uuid) = "-f" ∷ []
force_arg (standard StandardFilesystemType.swap label uuid) = "-f" ∷ []

pub record Formatter : Type 0 where
  pub filesystem : Filesystem
  pub force : Bool

-- `std::process::Command`
pub record Command : Type 0 where
  pub program : String
  pub args : List String

-- `Formatter::new`
unfoldable pub new : Filesystem → Formatter
new filesystem = record { filesystem = filesystem; force = false }

-- `Formatter::force`
unfoldable pub force : Formatter → Formatter
force f = record f { force = true }

abbrev pub add_args : List String → Command → Command
add_args args c = record c { args = c.args ++ args }

-- `Formatter::format`, with the device's path as a string.
unfoldable pub format : Formatter → String → Command
unfolding mkfs_command uuid_arg label_arg force_arg
format f device =
    let command : Command = record { program = mkfs_command f.filesystem; args = [] } in
    let with_uuid = add_args (uuid_arg f.filesystem) command in
    let with_label = add_args (label_arg f.filesystem) with_uuid in
    let with_force = if f.force then add_args (force_arg f.filesystem) with_label else with_label in
    add_args (device ∷ []) with_force
