-- ===== src/Disks.antt =====
-- Block devices as the library sees them: crates/disks/src/{partition,disk,mock,loopback,lib}.rs.
-- A path is the list of its components, and an absolute one begins with "/".
mod Defs
pub mod Display
pub mod Sysfs
pub mod Discovery
pub mod Recognised
pub mod Names
pub mod NotDevices
pub mod Listing
pub mod Paths
mod Examples
unfoldable pub use Defs.*
