-- ===== src/Superblock.antt =====
-- Superblocks: crates/superblock.
pub mod Format
pub mod Utf8
mod Examples
pub mod Lossy
pub mod Labels
pub mod Identity
pub mod VolumeId
pub mod Config
pub mod ConfigArea
pub mod Padded
pub mod Ext4
pub mod Btrfs
pub mod F2fs
pub mod Xfs
pub mod Luks2
pub mod Fat
pub mod Detect
pub mod Found
pub mod Magic
