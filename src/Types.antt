-- ===== src/Types.antt =====
-- The vocabulary of provisioning files: crates/types/src.
mod Errors
mod Roles
mod Units
mod Filesystems
mod Messages
pub mod RoundTrip
mod Examples
unfoldable pub use Errors.*
unfoldable pub use Roles.*
unfoldable pub use Units.*
unfoldable pub use Filesystems.*
unfoldable pub use Messages.*
